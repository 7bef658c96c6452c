-- ===== src/Refcomp.antt =====
-- Comparing local and remote references (internal/refcomp/refcompare.go).
pub mod Cache
pub mod Safety
pub mod Pairs
pub mod Named
use Prim.Native.Nat.{bit_or, bit_and}
use gnoci.Base.{
  ℕ, [], ◌∷◌, Option, none, some, Bool, Text, text_eq, nat_eq, ◌==◌, nat_beq, if◌then◌else◌,
}
use gnoci.Base.Dict.{Dict, lookup, insert}
use gnoci.Outcome.{
  Result, ok, err, crash, errorf, wrapf, is, reference_not_found, Action, bind, wrap,
}
use gnoci.Plumbing.{zero_hash, Reference, Commit, GoGit, Repository}
use gnoci.Model.{Modeler, resolve_ref, commit_exists}

-- A set of bits
abbrev pub Status : Type 0
Status = ℕ

abbrev pub status_delete : Status
status_delete = 1

abbrev pub status_update_ref : Status
status_update_ref = 2

abbrev pub status_add_commit : Status
status_add_commit = 4

abbrev pub status_force : Status
status_force = 8

-- `(status & flag) == flag`
abbrev pub has_status : Status → Status → Bool
has_status status flag = nat_beq (bit_and status flag) flag

-- `local` is `none` where the code has a nil reference.
pub record RefPair : Type 0 where
  pub local : Option Reference
  pub remote : Reference
  pub status : Status
  pub layer : Text

-- The comparer's cache, by remote name. The remote that it reads is the Modeler beside it.
pub record Comparer : Type 0 where
  pub refs : Dict RefPair
  pub remote : Modeler

unfoldable pub new_cached_ref_comparer : Modeler → Comparer
new_cached_ref_comparer m = record { refs = []; remote = m }

module _ (git : GoGit) (repo : Repository) where
  -- The status up to the ancestor test: the layer is empty for a commit that no layer holds.
  abbrev pub base_status : Bool → Text → Status
  base_status force layer =
      let forced = if force then bit_or status_update_ref status_force else status_update_ref in
      if layer == [] then bit_or forced status_add_commit else forced

  check_ancestor : Bool → RefPair → Reference → Bool → Result RefPair
  check_ancestor force rp local_ref is_fast_forward =
      if is_fast_forward
      then ok (record rp { status = bit_or rp.status status_update_ref })
      else if force
      then ok rp
      else err (
          errorf "remote reference %s update is not a fast forward of local ref %s"
            (rp.remote.name ∷ local_ref.name ∷ []))

  -- The end of `compare`, from the test for a remote reference that does not exist
  pub compare_remote : Bool → RefPair → Reference → Commit → Result RefPair
  unfolding check_ancestor
  compare_remote force rp local_ref local_commit =
      if nat_beq rp.remote.hash zero_hash
      then ok (record rp { status = bit_or rp.status status_update_ref })
      else bind
          (wrap "resolving commit object from hash for remote ref: %w" []
            (repo.commit_object rp.remote.hash))
          (λ remote_commit.
            bind
              (wrap "resolving remote commit ancestor status of local: %w" []
                (repo.is_ancestor remote_commit local_commit))
              (check_ancestor force rp local_ref))

  pub compare_local : Bool → Reference → Reference → Modeler → Result RefPair
  unfolding compare_remote
  compare_local force local_ref remote_ref m =
      bind
        (wrap "resolving commit object %s from hash for local ref %s: %w"
          (git.hash_string local_ref.hash ∷ local_ref.name ∷ [])
          (repo.commit_object local_ref.hash))
        (λ local_commit.
          bind
            (wrap "resolving existence of commit %s in remote: %w"
              (git.hash_string local_commit.hash ∷ []) (commit_exists git repo local_commit m))
            (λ layer.
              compare_remote force
                (record {
                  local = some local_ref;
                  remote = remote_ref;
                  status = base_status force layer;
                  layer = layer;
                })
                local_ref local_commit))

  unfoldable pub compare : Bool → Option Reference → Reference → Modeler → Result RefPair
  unfolding compare_local
  compare force none remote_ref m = ok (record {
    local = none;
    remote = remote_ref;
    status =
        bit_or (if force then bit_or status_update_ref status_force else status_update_ref)
          status_delete;
    layer = [];
  })
  compare force (some local_ref) remote_ref m = compare_local force local_ref remote_ref m

  -- The local reference; an empty name has none.
  unfoldable pub resolve_local : Text → Result (Option Reference)
  resolve_local name =
      if name == []
      then ok none
      else bind (wrap "resolving hash of local reference %s: %w" (name ∷ []) (repo.reference name))
          (λ ref. ok (some ref))

  remote_or_zero : Text → Result (Reference × Text) → Result Reference
  remote_or_zero name (ok (ref, layer)) = ok ref
  remote_or_zero name (err e) =
      if is reference_not_found e
      then ok (record { name = name; hash = zero_hash })
      else err (wrapf "resolving remote reference: %w" [] e)
  remote_or_zero name (crash k) = crash k

  -- The remote reference, with the zero hash where the remote has none of this name
  unfoldable pub resolve_remote : Text → Modeler → Result Reference
  unfolding remote_or_zero
  resolve_remote name m = remote_or_zero name (resolve_ref git name m)

  -- Compare after a miss in the cache
  unfoldable pub compare_names : Bool → Text → Text → Modeler → Result RefPair
  compare_names force local_name remote_name m = bind (resolve_local local_name) (λ local_ref.
      bind (resolve_remote remote_name m) (λ remote_ref.
        wrap "comparing local and remote refs: %w" [] (compare force local_ref remote_ref m)))

  remember : Text → Result RefPair → Action Comparer RefPair
  remember name (ok rp) c = (ok rp, record c { refs = insert name rp c.refs })
  remember name (err e) c = (err e, c)
  remember name (crash k) c = (crash k, c)

  cached : Option RefPair → Bool → Text → Text → Action Comparer RefPair
  unfolding remember
  cached (some rp) force local_name remote_name c = (ok rp, c)
  cached none force local_name remote_name c =
      remember remote_name (compare_names force local_name remote_name c.remote) c

  unfoldable pub compare_cached : Bool → Text → Text → Action Comparer RefPair
  unfolding cached
  compare_cached force local_name remote_name c =
      cached (lookup remote_name c.refs) force local_name remote_name c
