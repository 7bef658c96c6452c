-- ===== src/Cmd/Lists.antt =====
-- The list command (internal/cmd/list.go).
pub mod Entries
pub mod Resolved
use gnoci.Base.{
  List, [], ◌∷◌, ◌++◌, Option, none, some, Bool, false, Text, text, text_eq, ◌==◌, if◌then◌else◌,
}
use gnoci.Base.Dict.{Dict}
use gnoci.Outcome.{Action, wrapping, ◌>>=◌}
use gnoci.Plumbing.{Reference, Repository}
use gnoci.Oci.{ReferenceInfo}
use gnoci.Protocol.Lists.{ListResponse}
use gnoci.Comms.{Communicator, receive_list_request, write_list_response}
use gnoci.Model.{Modeler, head_refs, tag_refs}

-- The name of the local HEAD. An error of Head is logged only.
head_name : Option Reference → Option Text
head_name none = none
head_name (some ref) = some ref.name

unfoldable pub local_head : Bool → Option Repository → Option Text
unfolding head_name
local_head false (some local) = head_name local.head
local_head _ _ = none

abbrev pub is_head : Text → Option Text → Bool
is_head name none = false
is_head name (some head) = name == head

abbrev pub entry : Text × ReferenceInfo → ListResponse
entry (name, info) = record { reference = name; commit = info.commit }

-- A branch, behind the symbolic HEAD if it is the local one
branch_entries : Option Text → Text × ReferenceInfo → List ListResponse
branch_entries head (name, info) =
    if is_head name head
    then record { reference = text "HEAD"; commit = b'@' ∷ name } ∷ entry (name, info) ∷ []
    else entry (name, info) ∷ []

unfoldable pub list_heads : Option Text → Dict ReferenceInfo → List ListResponse
unfolding branch_entries
list_heads head [] = []
list_heads head (ref ∷ refs) = branch_entries head ref ++ list_heads head refs

unfoldable pub list_tags : Dict ReferenceInfo → List ListResponse
list_tags [] = []
list_tags (ref ∷ refs) = entry ref ∷ list_tags refs

unfoldable pub list_results : Bool → Option Repository → Modeler → List ListResponse
unfolding list_heads list_tags local_head
list_results for_push local remote =
    list_heads (local_head for_push local) (head_refs remote) ++ list_tags (tag_refs remote)

unfoldable pub handle_list : Option Repository → Modeler → Action Communicator (Unit {0})
handle_list local remote = do
  req ← wrapping "parsing list request: %w" [] receive_list_request
  wrapping "writing list response: %w" []
      (write_list_response (list_results req.for_push local remote))
