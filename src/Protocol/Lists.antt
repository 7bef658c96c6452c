-- ===== src/Protocol/Lists.antt =====
-- The list request and its response (pkg/protocol/git/list.go).
use gnoci.Base.{List, [], ◌∷◌, ◌++◌, Bool, true, false, Text, text, text_eq, ◌==◌, if◌then◌else◌}
use gnoci.Outcome.{Result, ok, err, sentinel, wrapf, bad_request, unexpected_request}
use gnoci.Protocol.Commands
use gnoci.Protocol.Commands.{Command, show_fields}

pub record ListRequest : Type 0 where
  pub cmd : Command
  pub for_push : Bool

-- The test of the second field. It is made only where there are exactly two fields.
list_option : Command → List Text → Result ListRequest
list_option cmd (option ∷ []) =
    if option == text "for-push"
    then ok (record { cmd = cmd; for_push = true })
    else err (
        wrapf "%w: invalid option for list request: got %v" (show_fields (cmd ∷ option ∷ []) ∷ [])
          (sentinel bad_request))
list_option cmd rest = ok (record { cmd = cmd; for_push = false })

unfoldable pub parse_list_request : List Text → Result ListRequest
unfolding list_option
parse_list_request [] = err (
    wrapf "%w: invalid fields for list request: got %v" (show_fields [] ∷ [])
      (sentinel bad_request))
parse_list_request (cmd ∷ rest) =
    if cmd == Commands.list
    then list_option cmd rest
    else err (wrapf "%w: got %s, want %s" (cmd ∷ Commands.list ∷ []) (sentinel unexpected_request))

unfoldable pub list_request_text : ListRequest → Text
list_request_text r = if r.for_push then r.cmd ++ text " for-push" else r.cmd

pub record ListResponse : Type 0 where
  pub reference : Text
  pub commit : Text

unfoldable pub list_response_text : ListResponse → Text
list_response_text r = r.commit ++ (b' ' ∷ r.reference)
