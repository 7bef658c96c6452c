-- ===== src/Protocol/Fetch.antt =====
-- The fetch request (pkg/protocol/git/fetch.go).
use gnoci.Base.{List, [], ◌∷◌, ◌++◌, Text, text_eq, ◌==◌, if◌then◌else◌}
use gnoci.Outcome.{Result, ok, err, sentinel, wrapf, bad_request, unexpected_request}
use gnoci.Plumbing.{Reference, GoGit}
use gnoci.Protocol.Commands
use gnoci.Protocol.Commands.{Command, show_fields}

pub record FetchRequest : Type 0 where
  pub cmd : Command
  pub ref : Reference

module _ (git : GoGit) where
  unfoldable pub parse_fetch_request : List Text → Result FetchRequest
  parse_fetch_request (cmd ∷ hash ∷ name ∷ _) =
      if cmd == Commands.fetch
      then ok
          (record { cmd = Commands.fetch; ref = record { name = name; hash = git.new_hash hash } })
      else err
          (wrapf "%w: got %s, want %s" (cmd ∷ Commands.fetch ∷ []) (sentinel unexpected_request))
  parse_fetch_request fields = err (
      wrapf "%w: invalid fields for fetch request: got %v" (show_fields fields ∷ [])
        (sentinel bad_request))

  unfoldable pub fetch_request_text : FetchRequest → Text
  fetch_request_text r = r.cmd ++ (b' ' ∷ (git.hash_string r.ref.hash ++ (b' ' ∷ r.ref.name)))
