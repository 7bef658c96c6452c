-- ===== src/Protocol/Capabilities.antt =====
-- Capabilities and their request (pkg/protocol/git/capabilities.go).
use gnoci.Base.{List, [], ◌∷◌, Text, text, text_eq, ◌==◌, if◌then◌else◌}
use gnoci.Outcome.{Result, ok, err, sentinel, wrapf, bad_request, unexpected_request}
use gnoci.Protocol.Commands
use gnoci.Protocol.Commands.{Command, show_fields}

abbrev pub Capability : Type 0
Capability = Text

abbrev pub capability_option : Capability
capability_option = text "option"

abbrev pub capability_fetch : Capability
capability_fetch = text "fetch"

abbrev pub capability_push : Capability
capability_push = text "push"

pub record CapabilitiesRequest : Type 0 where
  pub cmd : Command

unfoldable pub parse_capabilities_request : List Text → Result CapabilitiesRequest
parse_capabilities_request (field ∷ []) =
    if field == Commands.capabilities
    then ok (record { cmd = Commands.capabilities })
    else err (
        wrapf "%w: got %s, want %s" (field ∷ Commands.capabilities ∷ [])
          (sentinel unexpected_request))
parse_capabilities_request fields = err (
    wrapf "%w: invalid fields for capabilities request: got %v" (show_fields fields ∷ [])
      (sentinel bad_request))

unfoldable pub capabilities_request_text : CapabilitiesRequest → Text
capabilities_request_text r = r.cmd
