-- ===== src/Protocol/Push.antt =====
-- The push request and its response (pkg/protocol/git/push.go).
use gnoci.Base.{
  List, [], ◌∷◌, ◌++◌, Option, none, some, Bool, true, false, Text, text, text_eq, ◌==◌, split,
  has_prefix, trim_prefix, if◌then◌else◌,
}
use gnoci.Outcome.{
  Result, ok, err, Error, sentinel, errorf, wrapf, message, bad_request, unexpected_request,
}
use gnoci.Protocol.Commands
use gnoci.Protocol.Commands.{Command, show_fields}

pub record PushRequest : Type 0 where
  pub cmd : Command
  pub force : Bool
  pub src : Text
  pub remote : Text

abbrev pub plus : Text
plus = text "+"

-- The second field, `<local>:<remote>`, once it is split
unfoldable pub parse_pair : Text → List Text → Result PushRequest
parse_pair pair (local ∷ remote ∷ []) =
    if has_prefix local plus
    then ok (record {
      cmd = Commands.push;
      force = true;
      src = trim_prefix local plus;
      remote = remote;
    })
    else ok (record { cmd = Commands.push; force = false; src = local; remote = remote })
parse_pair pair parts =
    err (
      errorf "failed to split reference pair string, got %s, expected <local>:<remote>" (pair ∷ []))

unfoldable pub parse_push_request : List Text → Result PushRequest
unfolding parse_pair
parse_push_request (cmd ∷ pair ∷ _) =
    if cmd == Commands.push
    then parse_pair pair (split b':' pair)
    else err (wrapf "%w: got %s, want %s" (cmd ∷ Commands.push ∷ []) (sentinel unexpected_request))
parse_push_request fields = err (
    wrapf "%w: invalid fields for push request: got %v" (show_fields fields ∷ [])
      (sentinel bad_request))

unfoldable pub push_request_text : PushRequest → Text
push_request_text r =
    if r.force
    then r.cmd ++ (b' ' ∷ (b'+' ∷ (r.src ++ (b':' ∷ r.remote))))
    else r.cmd ++ (b' ' ∷ (r.src ++ (b':' ∷ r.remote)))

pub record PushResponse : Type 0 where
  pub remote : Text
  -- The field Error, where `none` is nil
  pub error : Option Error

unfoldable pub push_response_text : PushResponse → Text
push_response_text r = elim r.error [
  | none ↦ text "ok " ++ r.remote
  | some e ↦ text "error " ++ (r.remote ++ (b' ' ∷ message e))
]
