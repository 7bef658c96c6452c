-- ===== src/Tests/Log.antt =====
-- Examples of the logging of HTTP: requests with a token, and a response that sends the client on.
use mathlib.Core.Path.{subst}
use gnoci.Base.{◌≡◌, refl, inl, [], ◌∷◌, ◌++◌, none, some, true, Text, text, text_eq, arith}
use gnoci.Outcome.{ok}
use gnoci.HttpLog.{
  allocate, at-allocate, World, Header, Request, Reply, Logging, LoggingTransport, round_trip,
}
use gnoci.HttpLog.Transparent.{Lives, Unchanged, Passes, round_trip-Passes}
use gnoci.HttpLog.Redacted.{AlikeHeaders, header, no_headers, secret, location, elsewhere, no_more}
use gnoci.HttpLog.Dumped.{AlikeRequests}
use gnoci.HttpLog.Secrets.{LeavesAlike, round_trip-Secret}

-- A URL is read as the host x, with the text as its query.
abbrev logging : Logging Text (Unit {0}) (Unit {0})
logging = record {
  enabled = λ req. true;
  redact = λ t. text "redacted";
  parse_url = λ t. some (record { user = none; raw_query = t; other = text "x" });
  url_text = λ u. u.other ++ u.raw_query;
  dump_request = λ url hdrs o. inl (text "dump");
  dump_response = λ hdrs o. inl (text "dump");
}

abbrev with_header : Text → Text → Header
with_header name value = (name, value ∷ []) ∷ []

-- One request, with this token
abbrev asked_with : Text → World Text
asked_with token = record {
  headers = record { next = 1; at = λ p. with_header (text "Authorization") token };
  urls = record {
    next = 1;
    at = λ p. record { user = none; raw_query = token; other = text "reg" };
  };
  request_number = 6;
  log = [];
}

abbrev one_request : Request (Unit {0})
one_request = record { url = some 0; header = some 0; other = tt }

-- The answer is a redirection to a signed URL.
abbrev signing : Text → LoggingTransport Text (Unit {0}) (Unit {0})
signing signature = record {
  base = λ req w. (
    ok (record {
      response = some (record { header = some w.headers.next; other = tt });
      error = none;
    }),
    record w { headers = allocate (with_header (text "Location") signature) w.headers },
  );
}

signing-Lives :
    (v : World Text) (reply : Reply (Unit {0}))
    → ((signing (text "s")).base one_request v).0 ≡ ok reply
    → Lives ((signing (text "s")).base one_request v).1 reply.response
unfolding allocate
signing-Lives v reply e =
    let same : some (record { header = some v.headers.next; other = tt }) ≡ reply.response = cc in
    subst (Lives ((signing (text "s")).base one_request v).1) same (λ p h. ground arith)

round_trip-Passes_example :
    (v : World Text) × Unchanged (asked_with (text "t")) v
    × Passes
        ((signing (text "s")).base one_request v)
        (round_trip logging (signing (text "s")) one_request (asked_with (text "t")))
unfolding allocate
round_trip-Passes_example =
    round_trip-Passes logging (signing (text "s")) one_request (asked_with (text "t")) (λ e. cc)
      signing-Lives

tokens-AlikeRequests :
    AlikeRequests logging (asked_with (text "t")) one_request (asked_with (text "u")) one_request
tokens-AlikeRequests = record {
  urls_alike = refl;
  headers_alike = header (secret (inl refl) refl) no_headers;
  other_same = refl;
}

signatures :
    AlikeHeaders logging
      (with_header (text "Location") (text "s"))
      (with_header (text "Location") (text "z"))
signatures = header (location refl (elsewhere refl refl refl no_more)) no_headers

signatures-LeavesAlike :
    LeavesAlike logging (signing (text "s")) (signing (text "z")) one_request one_request
signatures-LeavesAlike x y same = (same, (rw (at-allocate, at-allocate) signatures, refl))

round_trip-Secret_example :
    (round_trip logging (signing (text "s")) one_request (asked_with (text "t"))).1.log
    ≡ (round_trip logging (signing (text "z")) one_request (asked_with (text "u"))).1.log
round_trip-Secret_example =
    round_trip-Secret logging (signing (text "s")) (signing (text "z")) one_request one_request
      (asked_with (text "t")) (asked_with (text "u")) refl refl refl tokens-AlikeRequests
      signatures-LeavesAlike
