-- ===== src/Model/Session/Default.antt =====
-- What FetchOrDefault does for a remote that does not exist yet.
use gnoci.Base.{[], ◌∷◌, ◌≡◌, true}
use gnoci.Base.Dict.{entries}
use gnoci.Outcome.{ok}
use gnoci.Outcome.Keeps.{Keeps}
use gnoci.Oci.{ConfigGit, ReferenceInfo}
use gnoci.Model.{temp_git_manifest}
use gnoci.Model.Refs.{IsMade}
use gnoci.Model.Session.{Outside, Session, fetch}
use gnoci.Model.Session.Published.{fresh}

module _ {T F : Type 0} (out : Outside T F) where
  -- A config of an empty repository: both maps are made, and the only entry is the temporary one.
  pub record IsInitial (cfg : ConfigGit) : Type 0 where
    pub made : IsMade cfg
    pub temp : ReferenceInfo
    pub heads_are : entries cfg.heads ≡ (temp_git_manifest, temp) ∷ []
    pub tags_are : entries cfg.tags ≡ []

  -- An empty repository that was pushed: what Fetch, from an object as new, finds is what it holds.
  pub record IsPushed (s : Session T F) (f : F) : Type 0 where
    pub initial : IsInitial s.model.cfg
    pub no_layers : s.model.man.layers ≡ []
    pub fetched : s.model.fetched ≡ true
    pub found : (fetch out (fresh s.model.ref s.target f)).0 ≡ ok s.model.man_desc
    pub cfg_read : (fetch out (fresh s.model.ref s.target f)).1.model.cfg ≡ s.model.cfg
    pub layers_read : (fetch out (fresh s.model.ref s.target f)).1.model.man.layers ≡ []
