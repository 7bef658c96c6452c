-- ===== src/HttpLog/Redacted.antt =====
-- What is left of headers when the secrets are blacked out (internal/logutil/httplog.go).
use gnoci.Base.{
  ◌≡◌, refl, inl, inr, In, List, [], ◌∷◌, ◌++◌, none, some, map, Text, text_eq, list_beq,
}
use gnoci.HttpLog.{
  Url, Header, Logging, redacted_headers, location_header, set_values, without_secrets, redact_url,
  redact_parsed, redact_each, redact_http_headers,
}

module _ {U Q B : Type 0} (s : Logging U Q B) where
  -- Values of the header Location that are not URLs, or URLs that differ in user and query only
  pub data AlikeLocations : List Text → List Text → Type 0 where
    no_more : AlikeLocations [] []
    unread :
        {a b : Text} {xs ys : List Text}
        → s.parse_url a ≡ none
        → s.parse_url b ≡ none
        → AlikeLocations xs ys
        → AlikeLocations (a ∷ xs) (b ∷ ys)
    elsewhere :
        {a b : Text} {xs ys : List Text} {u v : Url U}
        → s.parse_url a ≡ some u
        → s.parse_url b ≡ some v
        → u.other ≡ v.other
        → AlikeLocations xs ys
        → AlikeLocations (a ∷ xs) (b ∷ ys)

  -- Values of a header that differ in a secret only
  pub data AlikeValues (name : Text) (values others : List Text) : Type 0 where
    same : values ≡ others → AlikeValues name values others
    secret :
        In name redacted_headers
        → map s.redact values ≡ map s.redact others
        → AlikeValues name values others
    location :
        name ≡ location_header → AlikeLocations values others → AlikeValues name values others

  pub data AlikeHeaders : Header → Header → Type 0 where
    no_headers : AlikeHeaders [] []
    header :
        {name : Text} {values others : List Text} {h k : Header}
        → AlikeValues name values others
        → AlikeHeaders h k
        → AlikeHeaders ((name, values) ∷ h) ((name, others) ∷ k)

  redact_url-alike :
      {xs ys : List Text} → AlikeLocations xs ys → map (redact_url s) xs ≡ map (redact_url s) ys
  unfolding redact_url redact_parsed without_secrets
  redact_url-alike no_more = refl
  redact_url-alike (unread {a = a} {b = b} p q rest) = rw (p, q, redact_url-alike rest)
  redact_url-alike (elsewhere p q e rest) = rw (p, q, e, redact_url-alike rest)

  redact_values-alike :
      (name : Text) (values others : List Text)
      → AlikeValues name values others
      → redact_http_headers s ((name, values) ∷ []) ≡ redact_http_headers s ((name, others) ∷ [])
  unfolding redact_http_headers redact_each set_values list_beq
  redact_values-alike name values others (same e) = rw e
  redact_values-alike name values others (secret (inl n) e) = rw n (rw e)
  redact_values-alike name values others (secret (inr (inl n)) e) = rw n (rw e)
  redact_values-alike name values others (secret (inr (inr (inl n))) e) = rw n (rw e)
  redact_values-alike name values others (secret (inr (inr (inr n))) e) = elim n [ ]
  redact_values-alike name values others (location n e) = rw n (rw (redact_url-alike e))

  redact_http_headers-cons :
      (name : Text) (values : List Text) (h : Header)
      → redact_http_headers s ((name, values) ∷ h)
        ≡ redact_http_headers s ((name, values) ∷ []) ++ redact_http_headers s h
  unfolding redact_http_headers redact_each set_values
  redact_http_headers-cons name values h = refl

  pub redact_http_headers-alike :
      (h k : Header) → AlikeHeaders h k → redact_http_headers s h ≡ redact_http_headers s k
  redact_http_headers-alike _ _ no_headers = refl
  redact_http_headers-alike _ _ (header {name} {values} {others} {h} {k} v rest) =
      rw (redact_http_headers-cons name values h, redact_http_headers-cons name others k) rw
        (redact_values-alike name values others v, redact_http_headers-alike h k rest)
