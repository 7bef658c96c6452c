-- ===== src/HttpLog/Dumped.antt =====
-- What is logged of one request and of one response (internal/logutil/httplog.go).
use gnoci.Base.{ℕ, ◌≡◌, refl, ◌++◌, [], ◌∷◌, Option, none, some}
use gnoci.Outcome.{Result, ok, err, crash, nil_dereference, ◌>>=◌}
use gnoci.HttpLog.Memory.{content, at-put, at-allocate, at-allocate_copy}
use gnoci.HttpLog.{
  World, Url, Header, Request, Response, Reply, Logging, without_secrets, redact_http_headers,
  dump_entry, clone_request, clone_header, clear_url, redact_header_at, log_entry, log_request,
  log_response,
}
use gnoci.HttpLog.Redacted.{AlikeHeaders, redact_http_headers-alike}

module _ {U Q B : Type 0} (s : Logging U Q B) where
  abbrev pub AlikeUrls : Option (Url U) → Option (Url U) → Type 0
  AlikeUrls none none = Unit
  AlikeUrls (some u) (some v) = u.other ≡ v.other
  AlikeUrls _ _ = ⊥

  abbrev pub AlikeHeader : Option Header → Option Header → Type 0
  AlikeHeader none none = Unit
  AlikeHeader (some h) (some k) = AlikeHeaders s h k
  AlikeHeader _ _ = ⊥

  -- Two requests that differ in secrets only
  pub record AlikeRequests (w : World U) (a : Request Q) (v : World U) (b : Request Q)
      : Type 0 where
    pub urls_alike : AlikeUrls (content w.urls a.url) (content v.urls b.url)
    pub headers_alike : AlikeHeader (content w.headers a.header) (content v.headers b.header)
    pub other_same : a.other ≡ b.other

  -- Two ends of a call of the wrapped transport that differ in secrets only
  abbrev pub AlikeResponses : World U → Option (Response B) → World U → Option (Response B) → Type 0
  AlikeResponses w none v none = Unit
  AlikeResponses w (some a) v (some b) =
      AlikeHeader (content w.headers a.header) (content v.headers b.header) × (a.other ≡ b.other)
  AlikeResponses w _ v _ = ⊥

  abbrev pub AlikeEnds : Result (Reply B) → World U → Result (Reply B) → World U → Type 0
  AlikeEnds (ok a) w (ok b) v = AlikeResponses w a.response v b.response
  AlikeEnds (err e) w (err f) v = Unit
  AlikeEnds (crash k) w (crash l) v = Unit
  AlikeEnds (ok a) w (err f) v = ⊥
  AlikeEnds (ok a) w (crash l) v = ⊥
  AlikeEnds (err e) w (ok b) v = ⊥
  AlikeEnds (err e) w (crash l) v = ⊥
  AlikeEnds (crash k) w (ok b) v = ⊥
  AlikeEnds (crash k) w (err f) v = ⊥

  redacted : Option Header → Option Header
  redacted none = none
  redacted (some h) = some (redact_http_headers s h)

  redacted-alike : (h k : Option Header) → AlikeHeader h k → redacted h ≡ redacted k
  unfolding redacted
  redacted-alike none none alike = refl
  redacted-alike (some h) (some k) alike = rw (redact_http_headers-alike s h k alike)
  redacted-alike none (some k) alike = elim alike [ ]
  redacted-alike (some h) none alike = elim alike [ ]

  -- The dump is that of a copy without secrets.
  log_request-log :
      (id : ℕ) (u : ℕ) (header : Option ℕ) (o : Q) (w : World U)
      → (log_request s id (record { url = some u; header = header; other = o }) w).1.log
        ≡ w.log
          ++ (dump_entry s id "HTTP Request" "Failed to dump the HTTP request" (
                s.dump_request
                  (some (without_secrets (w.urls.at u)))
                  (redacted (content w.headers header))
                  o)
              ∷ [])
  unfolding log_request clone_request clear_url redact_header_at log_entry redacted ◌>>=◌
  log_request-log id u none o w = rw (at-put, at-allocate)
  log_request-log id u (some p) o w = rw (at-put, at-allocate, at-put, at-allocate)

  log_response-log :
      (id : ℕ) (header : Option ℕ) (o : B) (w : World U)
      → (log_response s id (record { header = header; other = o }) w).1.log
        ≡ w.log
          ++ (dump_entry s id "HTTP Response" "Failed to dump the HTTP response"
                (s.dump_response (redacted (content w.headers header)) o)
              ∷ [])
  unfolding log_response clone_header redact_header_at log_entry redacted ◌>>=◌
  log_response-log id none o w = refl
  log_response-log id (some p) o w = rw (at-put, at-allocate_copy)

  without_secrets-alike : (x y : Url U) → x.other ≡ y.other → without_secrets x ≡ without_secrets y
  unfolding without_secrets
  without_secrets-alike x y e = rw e

  -- Without a URL nothing is logged.
  no_url :
      (id : ℕ) (h k : Option ℕ) (o p : Q) (w v : World U)
      → w.log ≡ v.log
      → (log_request s id (record { url = none; header = h; other = o }) w).1.log
        ≡ (log_request s id (record { url = none; header = k; other = p }) v).1.log
  unfolding log_request clone_request clone_header clear_url ◌>>=◌
  no_url id none none o p w v e = e
  no_url id (some h) none o p w v e = e
  no_url id none (some k) o p w v e = e
  no_url id (some h) (some k) o p w v e = e

  pub log_request-alike :
      (id : ℕ) (a b : Request Q) (w v : World U)
      → w.log ≡ v.log
      → AlikeRequests w a v b
      → (log_request s id a w).1.log ≡ (log_request s id b v).1.log
  log_request-alike id a b w v same alike = of_url a.url b.url alike.urls_alike
    where
      of_url :
          (x y : Option ℕ)
          → AlikeUrls (content w.urls x) (content v.urls y)
          → (log_request s id (record { url = x; header = a.header; other = a.other }) w).1.log
            ≡ (log_request s id (record { url = y; header = b.header; other = b.other }) v).1.log
      of_url none none u = no_url id a.header b.header a.other b.other w v same
      of_url (some x) none u = elim u [ ]
      of_url none (some y) u = elim u [ ]
      of_url (some x) (some y) u =
          let headers =
            redacted-alike (content w.headers a.header) (content v.headers b.header)
              alike.headers_alike in
          rw (
            log_request-log id x a.header a.other w,
            log_request-log id y b.header b.other v,
            same,
            headers,
            alike.other_same,
            without_secrets-alike (w.urls.at x) (v.urls.at y) u,
          )

  abbrev end_at : Option ℕ → Result (Unit {0})
  end_at none = crash nil_dereference
  end_at (some u) = ok tt

  ended :
      (id : ℕ) (url header : Option ℕ) (o : Q) (w : World U)
      → (log_request s id (record { url = url; header = header; other = o }) w).0 ≡ end_at url
  unfolding log_request clone_request clone_header clear_url log_entry ◌>>=◌
  ended id none none o w = refl
  ended id none (some h) o w = refl
  ended id (some u) none o w = refl
  ended id (some u) (some h) o w = refl

  -- Both runs panic, or none does.
  pub log_request-end :
      (id : ℕ) (a b : Request Q) (w v : World U)
      → AlikeRequests w a v b
      → (log_request s id a w).0 ≡ (log_request s id b v).0
  log_request-end id a b w v alike = of_url a.url b.url alike.urls_alike
    where
      of_url :
          (x y : Option ℕ)
          → AlikeUrls (content w.urls x) (content v.urls y)
          → (log_request s id (record { url = x; header = a.header; other = a.other }) w).0
            ≡ (log_request s id (record { url = y; header = b.header; other = b.other }) v).0
      of_url (some x) none u = elim u [ ]
      of_url none (some y) u = elim u [ ]
      of_url none none u = rw (ended id none a.header a.other w, ended id none b.header b.other v)
      of_url (some x) (some y) u =
          rw (ended id (some x) a.header a.other w, ended id (some y) b.header b.other v)

  pub log_response-alike :
      (id : ℕ) (a b : Response B) (w v : World U)
      → w.log ≡ v.log
      → AlikeResponses w (some a) v (some b)
      → (log_response s id a w).1.log ≡ (log_response s id b v).1.log
  log_response-alike id a b w v same alike = rw (
    log_response-log id a.header a.other w,
    log_response-log id b.header b.other v,
    same,
    redacted-alike (content w.headers a.header) (content v.headers b.header) alike.0,
    alike.1,
  )
