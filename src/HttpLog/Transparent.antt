-- ===== src/HttpLog/Transparent.antt =====
-- What logging leaves of a round trip (internal/logutil/httplog.go).
use gnoci.Base.{
  ℕ, inl, inr, ◌+◌, ◌%◌, ◌^◌, ◌<◌, ◌≡◌, ◌≢◌, refl, Bool, true, false, Option, none, some,
  Bool-cases, arith,
}
use gnoci.Outcome.{Result, ok, err, crash, Error, continue, pure, ◌>>=◌}
use gnoci.HttpLog.Memory.{content, put, allocate, Same, Same-refl, Same-put, Same-allocate}
use gnoci.HttpLog.{
  World, Request, Response, Reply, Logging, LoggingTransport, clone_request, clone_header,
  clear_url, redact_header_at, log_entry, log_request, log_response, log_reply, count_request,
  round_trip,
}

-- No header and no URL that was there is another one, or has another value.
pub record Unchanged {U : Type 0} (before after : World U) : Type 0 where
  pub headers_same : Same before.headers after.headers
  pub urls_same : Same before.urls after.urls

module _ {U B : Type 0} where
  -- The header of a response that the wrapped transport returns is an object, or nil.
  abbrev pub Lives : World U → Option (Response B) → Type 0
  Lives w none = Unit
  Lives w (some resp) = (p : ℕ) → resp.header ≡ some p → p < w.headers.next

  -- The same response, where its header may be another object, with the same value
  abbrev pub Restored : World U → Option (Response B) → World U → Option (Response B) → Type 0
  Restored w none v none = Unit
  Restored w (some a) v (some b) =
      (b.other ≡ a.other) × (content v.headers b.header ≡ content w.headers a.header)
  Restored w _ v _ = ⊥

  -- What the second run returns is what the first one did.
  abbrev pub Passes : Result (Reply B) × World U → Result (Reply B) × World U → Type 0
  Passes (ok a, w) (err e, v) = ⊥
  Passes (ok a, w) (crash k, v) = ⊥
  Passes (ok a, w) (ok b, v) = (b.error ≡ a.error) × Restored w a.response v b.response
  Passes (err e, w) r = r ≡ (err e, w)
  Passes (crash k, w) r = r ≡ (crash k, w)

module _ {U Q B : Type 0} (s : Logging U Q B) where
  log_request-Unchanged :
      (id : ℕ) (url header : Option ℕ) (o : Q) (w : World U)
      → url ≢ none
      → (v : World U) × (log_request s id (record { url = url; header = header; other = o }) w
          ≡ (ok tt, v))
        × Unchanged w v
  unfolding log_request clone_request clear_url redact_header_at log_entry ◌>>=◌
  log_request-Unchanged id none header o w made = absurd (made refl)
  log_request-Unchanged id (some u) none o w made = (
    _,
    refl,
    record {
      headers_same = Same-refl w.headers;
      urls_same = Same-put _ _ _ _ (omega arith) (Same-allocate _ _ _ (Same-refl w.urls));
    },
  )
  log_request-Unchanged id (some u) (some p) o w made = (
    _,
    refl,
    record {
      headers_same = Same-put _ _ _ _ (omega arith) (Same-allocate _ _ _ (Same-refl w.headers));
      urls_same = Same-put _ _ _ _ (omega arith) (Same-allocate _ _ _ (Same-refl w.urls));
    },
  )

  log_response-Restored :
      (id : ℕ) (resp : Response B) (w : World U)
      → Lives w (some resp)
      → (shown : Response B) × (v : World U) × (log_response s id resp w ≡ (ok shown, v))
        × Restored w (some resp) v (some shown)
  unfolding log_response clone_header redact_header_at log_entry put allocate ◌>>=◌
  log_response-Restored id resp w lives = of_header resp.header resp.other lives
    where
      of_header :
          (header : Option ℕ) (o : B)
          → Lives w (some (record { header = header; other = o }))
          → (shown : Response B) × (v : World U) × (log_response s id
                (record { header = header; other = o })
                w
              ≡ (ok shown, v))
            × Restored w (some (record { header = header; other = o })) v (some shown)
      of_header none o l = (_, _, refl, (refl, refl))
      of_header (some p) o l = (_, _, refl, (refl, ground (arith, l p refl)))

  log_reply-Passes :
      (id : ℕ) (on : Bool) (resp : Option (Response B)) (e : Option Error) (w : World U)
      → Lives w resp
      → Passes (ok (record { response = resp; error = e }), w) (log_reply s id on resp e w)
  unfolding log_reply pure ◌>>=◌
  log_reply-Passes id true (some resp) e w lives =
      let (shown, v, run, same) = log_response-Restored id resp w lives in rw run (refl, same)
  log_reply-Passes id true none e w lives = (refl, tt)
  log_reply-Passes id false none e w lives = (refl, tt)
  log_reply-Passes id false (some resp) e w lives = (refl, (refl, refl))

  answered-Passes :
      (id : ℕ) (on : Bool) (r : Result (Reply B)) (w : World U)
      → ((reply : Reply B) → r ≡ ok reply → Lives w reply.response)
      → Passes (r, w) (continue r (λ reply. log_reply s id on reply.response reply.error) w)
  answered-Passes id on (ok a) w lives = log_reply-Passes id on a.response a.error w (lives a refl)
  answered-Passes id on (err e) w lives = refl
  answered-Passes id on (crash k) w lives = refl

  -- Logging does not change a round trip: where the request has a URL, and the header of a response
  -- that the wrapped transport returns is an object or nil, RoundTrip makes one call of the wrapped
  -- transport with the very request, before which no header and no URL that was there has changed;
  -- a panic of this call goes on, and otherwise it returns the error of the call and its response,
  -- with nothing but the object of the header exchanged for one with the same value.
  pub round_trip-Passes :
      (t : LoggingTransport U Q B) (req : Request Q) (w : World U)
      → req.url ≢ none
      → ((v : World U) (reply : Reply B)
          → (t.base req v).0 ≡ ok reply
          → Lives (t.base req v).1 reply.response)
      → (v : World U) × Unchanged w v × Passes (t.base req v) (round_trip s t req w)
  unfolding round_trip count_request pure ◌>>=◌
  round_trip-Passes t req w made lives =
      let counted : World U = record w { request_number = (w.request_number + 1) % 2 ^ 64 } in
      elim (Bool-cases (s.enabled req)) [
        | inl on ↦
            let (v, run, same) =
              log_request-Unchanged counted.request_number req.url req.header req.other counted
                made in
            (
              v,
              record { headers_same = same.headers_same; urls_same = same.urls_same },
              rw (on, run) (answered-Passes counted.request_number true _ _ (lives v)),
            )
        | inr off ↦ (
          counted,
          record { headers_same = Same-refl w.headers; urls_same = Same-refl w.urls },
          rw off (answered-Passes counted.request_number false _ _ (lives counted)),
        )
      ]
