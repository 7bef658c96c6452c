-- ===== src/Model/Session.antt =====
-- The methods of `model` that talk to the registry and to the file store
-- (internal/model/modeler.go, internal/model/modeler_lfs.go, internal/model/referrers.go).
--
-- Push runs its uploads in a pool: all of them run, and the errors are joined. The model runs them
-- in the order of the slice. A value that Go returns beside an error is dropped.
pub mod Added
pub mod Atomic
pub mod Default
pub mod Pushed
pub mod Stored
pub mod Backed
pub mod Published
pub mod Republished
use gnoci.Base.{
  ℕ, List, [], ◌∷◌, ◌++◌, Option, none, some, true, Text, text, text_eq, base_name, if◌then◌else◌,
}
use gnoci.Base.Dict.{insert}
use gnoci.Outcome.{
  Result, ok, err, crash, Error, errorf, wrapf, is, join_all, not_found, Action, pure, fail, lift,
  gets, asks, modify, wrapping, attempt, within, wrap, ◌>>=◌, ◌>>◌,
}
use gnoci.Plumbing.{Reference, GoGit}
use gnoci.Oci.{
  ConfigGit, Descriptor, Target, FileStore, Codec, empty_descriptor, artifact_type_git_manifest,
  media_type_git_config, media_type_pack_layer,
}
use gnoci.Model.{
  Modeler, temp_git_manifest, cleanup_temp_manifest, sort_refs_by_layer, update_refs, errors_of,
}

-- All that the methods call outside the repository. `now` is what time.Now().String() gives, and
-- `manifest_media_type` is ocispec.MediaTypeImageManifest.
pub record Outside (T F : Type 0) : Type 0 where
  pub git : GoGit
  pub target : Target T
  pub files : FileStore F
  pub codec : Codec
  -- Digest.Encoded
  pub encoded : Text → Text
  pub now : Text
  pub manifest_media_type : Text

-- The object, the registry behind `gt`, the file store behind `fstore`, and the number of progress
-- tickers that were started
pub record Session (T F : Type 0) : Type 0 where
  pub model : Modeler
  pub target : T
  pub files : F
  pub tickers : ℕ

abbrev pub epoch : Text
epoch = text "1970-01-01T00:00:00Z"

abbrev pub descriptor_or_empty : Result Descriptor → Descriptor
descriptor_or_empty (ok d) = d
descriptor_or_empty _ = empty_descriptor

-- `if err := errors.Join(errs...); err != nil`
abbrev pub unless_errors : Option Error → Result (Unit {0})
unless_errors none = ok tt
unless_errors (some e) = err e

module _ {T F : Type 0} where
  abbrev pub with_model : {A : Type 0} → Action Modeler A → Action (Session T F) A
  with_model = within (λ s. s.model) (λ s m. record s { model = m })

  abbrev pub with_target : {A : Type 0} → Action T A → Action (Session T F) A
  with_target = within (λ s. s.target) (λ s t. record s { target = t })

  abbrev pub with_files : {A : Type 0} → Action F A → Action (Session T F) A
  with_files = within (λ s. s.files) (λ s f. record s { files = f })

  abbrev pub with_cfg : {A : Type 0} → Action ConfigGit A → Action (Session T F) A
  with_cfg m = with_model (within (λ o. o.cfg) (λ o c. record o { cfg = c }) m)

  abbrev pub edit_model : (Modeler → Modeler) → Action (Session T F) (Unit {0})
  edit_model f = modify (λ s. record s { model = f s.model })

module _ {T F : Type 0} (out : Outside T F) where
  resolve_base : Action (Session T F) Descriptor
  resolve_base = do
    found ← attempt (asks (λ s. out.target.resolve s.target s.model.ref))
    edit_model (λ m. record m { man_desc = descriptor_or_empty found })
    ref ← gets (λ s. s.model.ref)
    lift (wrap "resolving basae manifest descriptor for remote %s: %w" (ref ∷ []) found)

  -- The part of Fetch after the test of `fetched`
  fetch_remote : Action (Session T F) Descriptor
  unfolding resolve_base
  fetch_remote = do
    desc ← resolve_base
    man_raw ←
        wrapping "fetching base manifest: %w" [] (asks (λ s. out.target.fetch_all s.target desc))
    wrapping "decoding base manifest: %w" [] (
        with_model (
          within (λ m. m.man) (λ m x. record m { man = x }) (out.codec.unmarshal_manifest man_raw)))
    cfg_raw ←
        wrapping "fetching config: %w" []
          (asks (λ s. out.target.fetch_all s.target s.model.man.config))
    wrapping "decoding config: %w" [] (with_cfg (out.codec.unmarshal_config cfg_raw))
    edit_model (sort_refs_by_layer out.git)
    edit_model (λ m. record m { fetched = true })
    pure desc

  fetch_again : Action (Session T F) Descriptor
  fetch_again = do edit_model cleanup_temp_manifest; gets (λ s. s.model.man_desc)

  unfoldable pub fetch : Action (Session T F) Descriptor
  unfolding fetch_remote fetch_again
  fetch s = if s.model.fetched then fetch_again s else fetch_remote s

  push_pack : Descriptor → Action (Session T F) (Unit {0})
  push_pack desc = do
    rc ←
        wrapping "fetching packfile from temporary filestore: %w" []
          (asks (λ s. out.files.fetch s.files desc))
    wrapping "pushing packfile: %w" [] (with_target (out.target.push desc rc))

  unfoldable pub push_packs : List Descriptor → Action (Session T F) (List Error)
  unfolding push_pack
  push_packs [] = pure []
  push_packs (desc ∷ descs) = do
    pushed ← attempt (push_pack desc)
    errs ← push_packs descs
    pure (errors_of pushed errs)

  unfoldable pub run_updates :
      List (Descriptor → Action (Session T F) (Unit {0}))
      → Descriptor
      → Action (Session T F) (List Error)
  run_updates [] desc = pure []
  run_updates (update ∷ updates) desc = do
    updated ← attempt (update desc)
    errs ← run_updates updates desc
    pure (errors_of updated errs)

  marshalled : Result Text → Result Text
  marshalled (err e) = err (errorf "encoding base manifest config" [])
  marshalled r = r

  -- The config, then the manifest that names it
  pub push_metadata : Action (Session T F) Descriptor
  unfolding marshalled
  push_metadata = do
    cfg ← gets (λ s. s.model.cfg)
    cfg_raw ← lift (marshalled (out.codec.marshal_config cfg))
    cfg_desc ←
        wrapping "pushing base config to repository: %w" []
          (with_target (out.target.push_bytes media_type_git_config cfg_raw))
    layers ← gets (λ s. s.model.man.layers)
    wrapping "packing and pushing base manifest: %w" [] (
        with_target (
          out.target.pack_manifest artifact_type_git_manifest
            (record { subject = none; layers = layers; config = some cfg_desc; created = epoch })))

  tag_manifest : Descriptor → Action (Session T F) (Unit {0})
  tag_manifest desc = do
    ref ← gets (λ s. s.model.ref)
    wrapping "tagging base manifest: %w" [] (with_target (out.target.tag desc ref))

  unfoldable pub push :
      List (Descriptor → Action (Session T F) (Unit {0})) → Action (Session T F) Descriptor
  unfolding push_packs run_updates push_metadata tag_manifest
  push updates = do
    packs ← gets (λ s. s.model.new_packs)
    errs ← push_packs packs
    lift (wrap "pushing packfiles: %w" [] (unless_errors (join_all errs)))
    man_desc ← push_metadata
    update_errs ← run_updates updates man_desc
    lift (wrap "referrer updates failed: %w" [] (unless_errors (join_all update_errs)))
    tag_manifest man_desc
    pure man_desc

  unfoldable pub default_model : Modeler → Modeler
  default_model m = record m {
    cfg = record {
      heads = some (insert temp_git_manifest (record { commit = out.now; layer = [] }) []);
      tags = some [];
    };
    man = record {
      media_type = out.manifest_media_type;
      artifact_type = artifact_type_git_manifest;
      config = empty_descriptor;
      layers = [];
    };
    refs_by_layer = [];
  }

  -- The case of ErrNotFound in FetchOrDefault. What is returned is the descriptor of the failed
  -- Fetch, the empty one.
  initialize : Action (Session T F) Descriptor
  unfolding default_model
  initialize = do
    edit_model default_model
    desc ← wrapping "pushing temporary git manifest: %w" [] (push [])
    edit_model (λ m. record m { man_desc = desc })
    edit_model (λ m. record m { fetched = true })
    pure empty_descriptor

  or_initialize : Result Descriptor → Action (Session T F) Descriptor
  or_initialize (ok desc) = pure desc
  or_initialize (err e) =
      if is not_found e then initialize else fail (wrapf "fetching remote metadata: %w" [] e)
  or_initialize (crash k) = lift (crash k)

  unfoldable pub fetch_or_default : Action (Session T F) Descriptor
  unfolding or_initialize initialize
  fetch_or_default = do found ← attempt fetch; or_initialize found

  joined : List Error → Result (Unit {0})
  joined errs = unless_errors (join_all errs)

  unfoldable pub add_pack : Text → List Reference → Action (Session T F) Descriptor
  unfolding joined
  add_pack path refs = do
    desc ←
        wrapping "adding packfile to intermediate file store: %w" []
          (with_files (out.files.add (base_name path) media_type_pack_layer path))
    edit_model (λ m. record m { man = record m.man { layers = m.man.layers ++ (desc ∷ []) } })
    errs ← with_model (update_refs out.git refs desc.digest)
    edit_model (λ m. record m { new_packs = m.new_packs ++ (desc ∷ []) })
    lift (joined errs)
    pure desc
