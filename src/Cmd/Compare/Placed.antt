-- ===== src/Cmd/Compare/Placed.antt =====
-- compareRefs keeps the references of the modeler placed in layers of the manifest.
use gnoci.Base.{List}
use gnoci.Plumbing.{GoGit, Repository}
use gnoci.Protocol.Push.{PushRequest}
use gnoci.Model.{Modeler}
use gnoci.Model.Invariant.{IsWellFormed, update_ref-IsWellFormed, delete_ref-IsWellFormed}
use gnoci.Cmd.Compare.{compare_refs}
use gnoci.Cmd.Compare.Kept.{compare_refs-kept}

pub compare_refs-IsWellFormed :
    (git : GoGit) (repo : Repository) (reqs : List PushRequest) (m : Modeler)
    → IsWellFormed git m
    → IsWellFormed git (compare_refs git repo reqs m).1.comparer.remote
compare_refs-IsWellFormed git repo =
    compare_refs-kept git repo (IsWellFormed git)
      (λ name. record { after = delete_ref-IsWellFormed git name })
      (λ ref layer. record { after = update_ref-IsWellFormed git ref layer })
