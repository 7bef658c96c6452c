-- ===== src/HttpLog/Secrets.antt =====
-- What the log of HTTP does not tell (internal/logutil/httplog.go).
use gnoci.Base.{
  ℕ, ◌+◌, ◌%◌, ◌^◌, ◌≡◌, refl, ◌∙◌, if◌then◌else◌, Bool, true, false, Option, none, some,
}
use gnoci.Outcome.{Result, ok, err, crash, Error, Action, continue, pure, ◌>>=◌, ◌>>◌}
use gnoci.HttpLog.{
  World, Request, Response, Reply, Logging, LoggingTransport, log_request, log_response, log_reply,
  count_request, round_trip,
}
use gnoci.HttpLog.Dumped.{
  AlikeRequests, AlikeResponses, AlikeEnds, log_request-alike, log_request-end, log_response-alike,
}

module _ {U Q B : Type 0} (s : Logging U Q B) where
  log_reply-response :
      (id : ℕ) (x : Response B) (e : Option Error) (w : World U)
      → (log_reply s id true (some x) e w).1 ≡ (log_response s id x w).1
  unfolding log_reply pure ◌>>=◌
  log_reply-response id x e w = left (log_response s id x w).0
    where
      left :
          (r : Result (Response B))
          → (continue {B = Reply B} r
              (λ (shown : Response B). pure (record { response = some shown; error = e }))
              (log_response s id x w).1).1
            ≡ (log_response s id x w).1
      left (ok a) = refl
      left (err f) = refl
      left (crash k) = refl

  log_reply-alike :
      (id : ℕ) (on : Bool) (x y : Option (Response B)) (e f : Option Error) (w v : World U)
      → w.log ≡ v.log
      → AlikeResponses s w x v y
      → (log_reply s id on x e w).1.log ≡ (log_reply s id on y f v).1.log
  unfolding log_reply pure ◌>>=◌
  log_reply-alike id on (some x) none e f w v same alike = elim alike [ ]
  log_reply-alike id on none (some y) e f w v same alike = elim alike [ ]
  log_reply-alike id true none none e f w v same alike = same
  log_reply-alike id false none none e f w v same alike = same
  log_reply-alike id true (some x) (some y) e f w v same alike =
      rw (log_reply-response id x e w, log_reply-response id y f v)
        (log_response-alike s id x y w v same alike)
  log_reply-alike id false (some x) (some y) e f w v same alike = same

  replied-alike :
      (id : ℕ) (on : Bool) (r q : Result (Reply B)) (w v : World U)
      → w.log ≡ v.log
      → AlikeEnds s r w q v
      → (continue r (λ reply. log_reply s id on reply.response reply.error) w).1.log
        ≡ (continue q (λ reply. log_reply s id on reply.response reply.error) v).1.log
  replied-alike id on (ok a) (ok b) w v same alike =
      log_reply-alike id on a.response b.response a.error b.error w v same alike
  replied-alike id on (err e) (err f) w v same alike = same
  replied-alike id on (crash k) (crash l) w v same alike = same
  replied-alike id on (ok a) (err f) w v same alike = elim alike [ ]
  replied-alike id on (ok a) (crash l) w v same alike = elim alike [ ]
  replied-alike id on (err e) (ok b) w v same alike = elim alike [ ]
  replied-alike id on (err e) (crash l) w v same alike = elim alike [ ]
  replied-alike id on (crash k) (ok b) w v same alike = elim alike [ ]
  replied-alike id on (crash k) (err f) w v same alike = elim alike [ ]

  module _ (t r : LoggingTransport U Q B) where
    -- The call of the wrapped transport, and what is logged of its reply
    abbrev asking : LoggingTransport U Q B → ℕ → Bool → Request Q → Action (World U) (Reply B)
    asking x id on req = x.base req >>= λ reply. log_reply s id on reply.response reply.error

    abbrev pub LeavesAlike : Request Q → Request Q → Type 0
    LeavesAlike a b =
        (x y : World U)
        → x.log ≡ y.log
        → ((t.base a x).1.log ≡ (r.base b y).1.log)
          × AlikeEnds s (t.base a x).0 (t.base a x).1 (r.base b y).0 (r.base b y).1

    module _ (a b : Request Q) (leaves : LeavesAlike a b) where
      asking-alike :
          (id : ℕ) (on : Bool) (p q : Result (Unit {0})) (x y : World U)
          → p ≡ q
          → x.log ≡ y.log
          → (continue p (λ _. asking t id on a) x).1.log
            ≡ (continue q (λ _. asking r id on b) y).1.log
      unfolding ◌>>=◌
      asking-alike id on (ok u) (ok v) x y e same =
          let (logs, ends) = leaves x y same in replied-alike id on _ _ _ _ logs ends
      asking-alike id on (err e) (err f) x y _ same = same
      asking-alike id on (crash k) (crash l) x y _ same = same
      asking-alike id on (ok u) (err f) x y e same = cc
      asking-alike id on (ok u) (crash l) x y e same = cc
      asking-alike id on (err f) (ok u) x y e same = cc
      asking-alike id on (err f) (crash l) x y e same = cc
      asking-alike id on (crash k) (ok u) x y e same = cc
      asking-alike id on (crash k) (err f) x y e same = cc

      logged-alike :
          (id : ℕ) (on : Bool) (x y : World U)
          → x.log ≡ y.log
          → AlikeRequests s x a y b
          → (((if on then log_request s id a else pure tt) >> asking t id on a) x).1.log
            ≡ (((if on then log_request s id b else pure tt) >> asking r id on b) y).1.log
      unfolding ◌>>=◌
      logged-alike id true x y same alike =
          asking-alike id true _ _ _ _ (log_request-end s id a b x y alike)
            (log_request-alike s id a b x y same alike)
      logged-alike id false x y same alike = asking-alike id false (ok tt) (ok tt) x y refl same

    -- The log does not tell a secret: where two requests differ in the user and the query of their
    -- URLs, in values of the redacted headers that redact.String makes the same, and in the user and
    -- the query of the URLs in their headers Location, and where the wrapped transports, from states
    -- with the same log, leave the same log and responses that differ in such secrets only, RoundTrip
    -- leaves the same log for both.
    pub round_trip-Secret :
        (a b : Request Q) (w v : World U)
        → w.log ≡ v.log
        → w.request_number ≡ v.request_number
        → s.enabled a ≡ s.enabled b
        → AlikeRequests s w a v b
        → LeavesAlike a b
        → (round_trip s t a w).1.log ≡ (round_trip s r b v).1.log
    unfolding round_trip count_request pure ◌>>=◌
    round_trip-Secret a b w v logs numbers on alike leaves =
        let x : World U = record w { request_number = (w.request_number + 1) % 2 ^ 64 } in
        let y : World U = record v { request_number = (v.request_number + 1) % 2 ^ 64 } in
        logged-alike a b leaves x.request_number (s.enabled a) x y logs (record {
          urls_alike = alike.urls_alike;
          headers_alike = alike.headers_alike;
          other_same = alike.other_same;
        })
        ∙ λ i.
            (((if on i then log_request s ((numbers i + 1) % 2 ^ 64) b else pure tt)
                >> asking r ((numbers i + 1) % 2 ^ 64) (on i) b)
              y).1.log
