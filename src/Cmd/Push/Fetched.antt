-- ===== src/Cmd/Push/Fetched.antt =====
-- What another clone reads after HandlePush: Fetch on the registry that it leaves.
use gnoci.Base.{◌≡◌, ◌≢◌, List, some, Text}
use gnoci.Outcome.{ok, Action}
use gnoci.Oci.{Descriptor, ConfigGit}
use gnoci.Model.Session.{Outside, Session}
use gnoci.Model.Session.Published.{Holds}
use gnoci.Model.Lfs.Updates.{Unreferring}

-- A registry whose deletion leaves what stands under other digests, and which names as a referrer
-- neither a manifest of these layers with this config nor the config
pub record DeletesReferrers {T F : Type 0} (out : Outside T F) (cfg : ConfigGit)
    (layers : List Descriptor) : Type 0 where
  pub delete_keeps :
      (delete : Descriptor → Action T (Unit {0}))
      → out.target.delete ≡ some delete
      → (e d : Descriptor) (raw : Text) (t : T) → e.digest ≢ d.digest
      → out.target.fetch_all t d ≡ ok raw
      → out.target.fetch_all (delete e t).1 d ≡ ok raw
  pub apart :
      (ref : Text) (d : Descriptor) (s : Session T F) (h : Holds out ref cfg layers d s)
      → Unreferring out d × Unreferring out h.man.config
