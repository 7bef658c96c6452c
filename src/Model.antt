-- ===== src/Model.antt =====
-- The Git data model in a registry (internal/model/modeler.go): the object `model`, and its
-- methods that do not talk to the registry.
pub mod Session
pub mod Layers
pub mod Lfs
pub mod Refs
pub mod Refine
pub mod Packed
pub mod Packs
pub mod Invariant
pub mod Exists
use gnoci.Base.{
  List, [], ◌∷◌, ◌++◌, Option, none, some, Bool, true, false, Text, text, text_eq, ◌==◌, contains,
  if◌then◌else◌,
}
use gnoci.Base.Dict.{Dict, lookup, insert, erase, entries}
use gnoci.Outcome.{
  Result, ok, err, crash, Error, sentinel, wrapf, unsupported_reference_type, reference_not_found,
  layer_not_in_manifest, nil_map_write, bind, wrap, Action, pure, attempt, ◌>>=◌,
}
use gnoci.Plumbing.{Hash, Reference, Commit, GoGit, Repository}
use gnoci.Oci.{
  ReferenceInfo, ConfigGit, Descriptor, Manifest, empty_descriptor, empty_manifest, empty_config,
}

abbrev pub temp_git_manifest : Text
temp_git_manifest = text "temp.git.manifest"

-- `ref` is the remote reference as it prints. The handles of the registry and of the file store
-- stand in the state of Model.Session.
pub record Modeler : Type 0 where
  pub ref : Text
  pub fetched : Bool
  pub man_desc : Descriptor
  pub man : Manifest
  pub cfg : ConfigGit
  pub refs_by_layer : Dict (List Hash)
  pub new_packs : List Descriptor
  pub lfs_man : Manifest
  pub lfs_man_desc : Descriptor

unfoldable pub new_modeler : Text → Modeler
new_modeler ref = record {
  ref = ref;
  fetched = false;
  man_desc = empty_descriptor;
  man = empty_manifest;
  cfg = empty_config;
  refs_by_layer = [];
  new_packs = [];
  lfs_man = empty_manifest;
  lfs_man_desc = empty_descriptor;
}

abbrev pub set_cfg : ConfigGit → Modeler → Modeler
set_cfg cfg m = record m { cfg = cfg }

erase_key : Text → Option (Dict ReferenceInfo) → Option (Dict ReferenceInfo)
erase_key k none = none
erase_key k (some d) = some (erase k d)

insert_key :
    Text → ReferenceInfo → Option (Dict ReferenceInfo) → Result (Option (Dict ReferenceInfo))
insert_key k v none = crash nil_map_write
insert_key k v (some d) = ok (some (insert k v d))

unfoldable pub cleanup_temp_manifest : Modeler → Modeler
unfolding erase_key
cleanup_temp_manifest m =
    set_cfg (record m.cfg { heads = erase_key temp_git_manifest m.cfg.heads }) m

abbrev list_or_nil : Option (List Hash) → List Hash
list_or_nil none = []
list_or_nil (some l) = l

-- `if err != nil { errs = append(errs, err) }`
abbrev pub errors_of : {A : Type 0} → Result A → List Error → List Error
errors_of (err e) es = e ∷ es
errors_of _ es = es

-- The loop of UpdateRef over the layers; that it runs backwards does not show in its result.
unfoldable pub has_layer : Text → List Descriptor → Bool
has_layer d [] = false
has_layer d (l ∷ ls) = let rest = has_layer d ls in if l.digest == d then true else rest

abbrev pub commits_at : Text → Dict (List Hash) → List Hash
commits_at layer by_layer = list_or_nil (lookup layer by_layer)

-- One of the two loops of sortRefsByLayer, with the keys seen so far
unfoldable pub sort_infos :
    GoGit → Dict ReferenceInfo → List Text × Dict (List Hash) → List Text × Dict (List Hash)
sort_infos git [] acc = acc
sort_infos git ((name, info) ∷ infos) (seen, by_layer) =
    let key = info.layer ++ info.commit in
    let commits = commits_at info.layer by_layer ++ (git.new_hash info.commit ∷ []) in
    sort_infos git infos (
      if contains seen key
      then (seen, by_layer)
      else (key ∷ seen, insert info.layer commits by_layer))

unfoldable pub sort_refs_by_layer : GoGit → Modeler → Modeler
unfolding sort_infos
sort_refs_by_layer git m =
    let heads_sorted = sort_infos git (entries m.cfg.heads) ([], []) in
    record m { refs_by_layer = (sort_infos git (entries m.cfg.tags) heads_sorted).1 }

unfoldable pub head_refs : Modeler → Dict ReferenceInfo
head_refs m = entries m.cfg.heads

unfoldable pub tag_refs : Modeler → Dict ReferenceInfo
tag_refs m = entries m.cfg.tags

set_heads : Result (Option (Dict ReferenceInfo)) → Action Modeler (Unit {0})
set_heads (ok d) m = (ok tt, set_cfg (record m.cfg { heads = d }) m)
set_heads (err e) m = (err e, m)
set_heads (crash k) m = (crash k, m)

set_tags : Result (Option (Dict ReferenceInfo)) → Action Modeler (Unit {0})
set_tags (ok d) m = (ok tt, set_cfg (record m.cfg { tags = d }) m)
set_tags (err e) m = (err e, m)
set_tags (crash k) m = (crash k, m)

module _ (git : GoGit) where
  abbrev pub unsupported : {A : Type 0} → Text → Result A
  unsupported name = err (wrapf "%w: %s" (name ∷ []) (sentinel unsupported_reference_type))

  unfoldable pub update_ref : Reference → Text → Action Modeler (Unit {0})
  unfolding has_layer set_heads set_tags insert_key
  update_ref ref layer m =
      let info : ReferenceInfo = record { commit = git.hash_string ref.hash; layer = layer } in
      if has_layer layer m.man.layers
      then (if git.is_branch ref.name
          then set_heads (insert_key ref.name info m.cfg.heads) m
          else if git.is_tag ref.name
          then set_tags (insert_key ref.name info m.cfg.tags) m
          else (unsupported (git.show_reference ref), m))
      else (err (wrapf "%w: %s" (layer ∷ []) (sentinel layer_not_in_manifest)), m)

  unfoldable pub found_ref : Text → Option ReferenceInfo → Result (Reference × Text)
  found_ref name none = err (wrapf "%w: %s" (name ∷ []) (sentinel reference_not_found))
  found_ref name (some info) =
      ok (record { name = name; hash = git.new_hash info.commit }, info.layer)

  unfoldable pub resolve_ref : Text → Modeler → Result (Reference × Text)
  unfolding found_ref
  resolve_ref name m =
      if git.is_branch name
      then found_ref name (lookup name (entries m.cfg.heads))
      else if git.is_tag name
      then found_ref name (lookup name (entries m.cfg.tags))
      else unsupported name

  unfoldable pub delete_ref : Text → Action Modeler (Unit {0})
  unfolding erase_key
  delete_ref name m =
      if git.is_branch name
      then (ok tt, set_cfg (record m.cfg { heads = erase_key name m.cfg.heads }) m)
      else if git.is_tag name
      then (ok tt, set_cfg (record m.cfg { tags = erase_key name m.cfg.tags }) m)
      else (unsupported name, m)

  -- The loop of AddPack over the references, which collects the errors
  unfoldable pub update_refs : List Reference → Text → Action Modeler (List Error)
  update_refs [] layer = pure []
  update_refs (ref ∷ refs) layer = do
    updated ← attempt (update_ref ref layer)
    errs ← update_refs refs layer
    pure (errors_of updated errs)

module _ (git : GoGit) (local : Repository) (commit : Commit) where
  -- Whether the commit is an ancestor of one of these
  unfoldable pub in_commits : List Hash → Result Bool
  in_commits [] = ok false
  in_commits (c ∷ cs) =
      bind
        (wrap "resolving commit object for remote head commit %s: %w" (git.hash_string c ∷ [])
          (local.commit_object c))
        (λ existing.
          bind
            (wrap "resolving ancestral status of commit to remote head commit %s: %w"
              (git.hash_string c ∷ []) (local.is_ancestor commit existing))
            (λ yes_it_is. let rest = in_commits cs in if yes_it_is then ok true else rest))

  unfoldable pub in_layers : List Descriptor → Dict (List Hash) → Result Text
  unfolding in_commits
  in_layers [] by_layer = ok []
  in_layers (l ∷ ls) by_layer =
      bind (in_commits (commits_at l.digest by_layer))
        (λ here. let rest = in_layers ls by_layer in if here then ok l.digest else rest)

  -- The empty digest says that no layer holds the commit.
  unfoldable pub commit_exists : Modeler → Result Text
  unfolding in_layers
  commit_exists m = in_layers m.man.layers m.refs_by_layer
