-- ===== src/HttpLog.antt =====
-- The logging of HTTP: internal/logutil/httplog.go. A transport that passes requests on to another
-- one, and logs both ways with the secrets blacked out.
--
-- Headers and URLs are objects behind pointers, since the code overwrites the values of a header in
-- place. The dumps, url.Parse, String of
-- a URL, redact.String and the wrapped transport are parameters.
mod Memory
pub mod Transparent
pub mod Redacted
pub mod Dumped
pub mod Secrets
unfoldable pub use Memory.*
use gnoci.Base.{
  ℕ, ◌⊎◌, inl, inr, ◌+◌, ◌%◌, ◌^◌, Bool, true, false, List, [], ◌∷◌, ◌++◌, Option, none, some, map,
  String, Text, text, text_eq, ◌==◌, if◌then◌else◌,
}
use gnoci.Base.Dict.{Dict}
use gnoci.Outcome.{
  crash, Error, message, nil_dereference, Action, pure, lift, gets, modify, ◌>>=◌, ◌>>◌,
}

-- http.Header; the names are canonical.
abbrev pub Header : Type 0
Header = Dict (List Text)

-- url.URL: its fields User and RawQuery, and what else it has
pub record Url (U : Type 0) : Type 0 where
  pub user : Option Text
  pub raw_query : Text
  pub other : U

-- http.Request and http.Response: the pointers, and what else they have
pub record Request (Q : Type 0) : Type 0 where
  pub url : Option ℕ
  pub header : Option ℕ
  pub other : Q

pub record Response (B : Type 0) : Type 0 where
  pub header : Option ℕ
  pub other : B

-- What RoundTrip returns; `none` is nil.
pub record Reply (B : Type 0) : Type 0 where
  pub response : Option (Response B)
  pub error : Option Error

-- A record of the log: the request's number, the message, and its attribute
pub record Entry : Type 0 where
  pub request_id : ℕ
  pub title : String
  pub attribute : Text

-- requestNumber has 64 bits; it is kept as its value modulo 2 ^ 64.
pub record World (U : Type 0) : Type 0 where
  pub headers : Cells Header
  pub urls : Cells (Url U)
  pub request_number : ℕ
  pub log : List Entry

pub record LoggingTransport (U Q B : Type 0) : Type 0 where
  pub base : Request Q → Action (World U) (Reply B)

-- What the code calls outside the repository, and whether the logger of the request's context logs
pub record Logging (U Q B : Type 0) : Type 0 where
  pub enabled : Request Q → Bool
  pub redact : Text → Text
  pub parse_url : Text → Option (Url U)
  pub url_text : Url U → Text
  -- httputil.DumpRequestOut and DumpResponse, without the body
  pub dump_request : Option (Url U) → Option Header → Q → Text ⊎ Error
  pub dump_response : Option Header → B → Text ⊎ Error

abbrev pub redacted_headers : List Text
redacted_headers = text "Authorization" ∷ text "Cookie" ∷ text "Set-Cookie" ∷ []

abbrev pub location_header : Text
location_header = text "Location"

-- `values := hdrs.Values(name)`, and each of them overwritten
unfoldable pub set_values : Text → (Text → Text) → Header → Header
set_values name f [] = []
set_values name f ((key, values) ∷ hdrs) =
    (key, if key == name then map f values else values) ∷ set_values name f hdrs

unfoldable pub without_secrets : {U : Type 0} → Url U → Url U
without_secrets u = record u { user = none; raw_query = [] }

module _ {U Q B : Type 0} (s : Logging U Q B) where
  redact_parsed : Option (Url U) → Text
  redact_parsed none = []
  redact_parsed (some u) = s.url_text (without_secrets u)

  unfoldable pub redact_url : Text → Text
  unfolding redact_parsed
  redact_url raw = redact_parsed (s.parse_url raw)

  redact_each : List Text → Header → Header
  redact_each [] hdrs = hdrs
  redact_each (name ∷ names) hdrs = redact_each names (set_values name s.redact hdrs)

  unfoldable pub redact_http_headers : Header → Header
  unfolding redact_each
  redact_http_headers hdrs =
      set_values location_header redact_url (redact_each redacted_headers hdrs)

  -- redactHTTPHeaders on the object behind a pointer; a nil header has no values.
  unfoldable pub redact_header_at : Option ℕ → World U → World U
  redact_header_at none w = w
  redact_header_at (some p) w = record w {
    headers = put p (redact_http_headers (w.headers.at p)) w.headers;
  }

  -- Clone of http.Header: the pointer to the copy
  unfoldable pub clone_header : Option ℕ → Action (World U) (Option ℕ)
  clone_header none = pure none
  clone_header (some p) = do
    q ← gets (λ w. w.headers.next)
    modify (λ w. record w { headers = allocate (w.headers.at p) w.headers })
    pure (some q)

  clone_url : Option ℕ → Action (World U) (Option ℕ)
  clone_url none = pure none
  clone_url (some p) = do
    q ← gets (λ w. w.urls.next)
    modify (λ w. record w { urls = allocate (w.urls.at p) w.urls })
    pure (some q)

  -- Clone of http.Request
  unfoldable pub clone_request : Request Q → Action (World U) (Request Q)
  unfolding clone_header clone_url
  clone_request req = do
    url ← clone_url req.url
    header ← clone_header req.header
    pure (record req { url = url; header = header })

  -- The fields of a URL behind a pointer set; nil has no fields.
  unfoldable pub clear_url : Option ℕ → Action (World U) (Unit {0})
  clear_url none = lift (crash nil_dereference)
  clear_url (some p) =
      modify (λ w. record w { urls = put p (without_secrets (w.urls.at p)) w.urls })

  -- The dump, or the error that it failed with
  unfoldable pub dump_entry : ℕ → String → String → Text ⊎ Error → Entry
  dump_entry id title failed (inl contents) = record {
    request_id = id;
    title = title;
    attribute = contents;
  }
  dump_entry id title failed (inr e) = record {
    request_id = id;
    title = failed;
    attribute = message e;
  }

  unfoldable pub log_entry : Entry → Action (World U) (Unit {0})
  log_entry entry = modify (λ w. record w { log = w.log ++ (entry ∷ []) })

  unfoldable pub log_request : ℕ → Request Q → Action (World U) (Unit {0})
  log_request id original = do
    req ← clone_request original
    clear_url req.url
    modify (redact_header_at req.header)
    bytes ←
        gets (λ w. s.dump_request (content w.urls req.url) (content w.headers req.header) req.other)
    log_entry (dump_entry id "HTTP Request" "Failed to dump the HTTP request" bytes)

  -- The response that is left, with its header restored
  unfoldable pub log_response : ℕ → Response B → Action (World U) (Response B)
  log_response id resp = do
    saved ← clone_header resp.header
    modify (redact_header_at resp.header)
    bytes ← gets (λ w. s.dump_response (content w.headers resp.header) resp.other)
    log_entry (dump_entry id "HTTP Response" "Failed to dump the HTTP response" bytes)
    pure (record resp { header = saved })

  -- Where the log is on and there is a response
  log_reply : ℕ → Bool → Option (Response B) → Option Error → Action (World U) (Reply B)
  log_reply id true (some resp) e = do
    shown ← log_response id resp
    pure (record { response = some shown; error = e })
  log_reply id enabled resp e = pure (record { response = resp; error = e })

  count_request : Action (World U) ℕ
  count_request = do
    modify (λ w. record w { request_number = (w.request_number + 1) % 2 ^ 64 })
    gets (λ w. w.request_number)

  unfoldable pub round_trip : LoggingTransport U Q B → Request Q → Action (World U) (Reply B)
  unfolding count_request log_reply
  round_trip t req = do
    id ← count_request
    (if s.enabled req then log_request id req else pure tt)
    reply ← t.base req
    log_reply id (s.enabled req) reply.response reply.error
