-- ===== src/Refcomp/Safety.antt =====
-- What a pair that the comparer returns says of the two references.
use gnoci.Base.{
  [], ◌∷◌, ◌≡◌, refl, ◌∙◌, sym, Bool, true, false, Text, none, some, text_eq, arith, ◌==◌,
  Bool-cases, inl, inr, nat_beq,
}
use gnoci.Outcome.{ok, wrap, bind-eq-ok, wrap-eq-ok}
use gnoci.Plumbing.{Hash, zero_hash, Reference, Commit, GoGit, Repository}
use gnoci.Base.Dict.{lookup}
use gnoci.Model.{Modeler, resolve_ref, commit_exists}
use gnoci.Refcomp.{
  RefPair, base_status, check_ancestor, compare_remote, compare_local, compare, compare_names,
  resolve_local, resolve_remote, Comparer, compare_cached, remote_or_zero,
}
use gnoci.Refcomp.Cache.{compare_cached-miss}

-- The first commit is an ancestor of the second, both as the local repository has them.
pub record IsFastForward (repo : Repository) (old new : Hash) : Type 0 where
  pub old_commit : Commit
  pub new_commit : Commit
  pub old_found : repo.commit_object old ≡ ok old_commit
  pub new_found : repo.commit_object new ≡ ok new_commit
  pub is_ancestor : repo.is_ancestor old_commit new_commit ≡ ok true

module _ (git : GoGit) (repo : Repository) where
  check_ancestor-ok :
      (rp rp' : RefPair) (local_ref : Reference) (ff : Bool)
      → check_ancestor git repo false rp local_ref ff ≡ ok rp'
      → (ff ≡ true) × (rp'.remote ≡ rp.remote) × (rp'.local ≡ rp.local)
  unfolding check_ancestor
  check_ancestor-ok rp rp' local_ref true h = ground arith
  check_ancestor-ok rp rp' local_ref false h = cc

  -- What a pair says that `compare` makes of these two references
  abbrev Sound : Reference → Reference → RefPair → Type 0
  Sound local_ref remote_ref rp =
      (rp.remote ≡ remote_ref)
      × (rp.local ≡ some local_ref)
      × (nat_beq remote_ref.hash zero_hash ≡ false
          → IsFastForward repo remote_ref.hash local_ref.hash)

  compare_remote-ok :
      (rp rp' : RefPair) (local_ref : Reference) (local_commit : Commit)
      → repo.commit_object local_ref.hash ≡ ok local_commit
      → rp.local ≡ some local_ref
      → compare_remote git repo false rp local_ref local_commit ≡ ok rp'
      → Sound local_ref rp.remote rp'
  unfolding compare_remote
  compare_remote-ok rp rp' local_ref local_commit found el h =
      elim (Bool-cases (nat_beq rp.remote.hash zero_hash)) [
        | inl z ↦
            let hz = rw z at h in
            (ground (arith, hz), ground (arith, hz, el), λ nz. ground (arith, nz, z))
        | inr nz ↦
            let found_remote =
              wrap "resolving commit object from hash for remote ref: %w" []
                (repo.commit_object rp.remote.hash) in
            let (rc, erc, h1) = bind-eq-ok found_remote _ (rw nz at h) in
            let (ff, eff, h2) =
              bind-eq-ok
                (wrap "resolving remote commit ancestor status of local: %w" []
                  (repo.is_ancestor rc local_commit))
                _ h1 in
            let (is_ff, er, same) = check_ancestor-ok rp rp' local_ref ff h2 in
            (
              er,
              same ∙ el,
              λ _. record {
                old_commit = rc;
                new_commit = local_commit;
                old_found =
                    wrap-eq-ok "resolving commit object from hash for remote ref: %w" [] _ erc;
                new_found = found;
                is_ancestor = rw is_ff at (
                    wrap-eq-ok "resolving remote commit ancestor status of local: %w" []
                      (repo.is_ancestor rc local_commit) eff);
              },
            )
      ]

  compare_local-ok :
      (local_ref remote_ref : Reference) (m : Modeler) (rp : RefPair)
      → compare_local git repo false local_ref remote_ref m ≡ ok rp
      → Sound local_ref remote_ref rp
  unfolding compare_local
  compare_local-ok local_ref remote_ref m rp h =
      let (lc, elc, h1) = bind-eq-ok _ _ h in
      let (layer, elayer, h2) =
        bind-eq-ok
          (wrap "resolving existence of commit %s in remote: %w" (git.hash_string lc.hash ∷ [])
            (commit_exists git repo lc m))
          _ h1 in
      compare_remote-ok
        (record {
          local = some local_ref;
          remote = remote_ref;
          status = base_status git repo false layer;
          layer = layer;
        })
        rp local_ref lc (wrap-eq-ok _ _ _ elc) refl h2

  -- Without force no commit of the remote is lost: if the comparer has no pair for the remote name yet,
  -- the local name resolves to one reference in the local repository, the remote name to another in
  -- the remote, whose hash is not zero, and Compare succeeds, then its pair is that of these two
  -- references, both commits are found in the local repository, and the remote's is an ancestor of
  -- the local one.
  pub compare_cached-IsFastForward :
      (local_name remote_name layer : Text) (l r : Reference) (c : Comparer) (rp : RefPair)
      → lookup remote_name c.refs ≡ none
      → (local_name == []) ≡ false
      → repo.reference local_name ≡ ok l
      → resolve_ref git remote_name c.remote ≡ ok (r, layer)
      → nat_beq r.hash zero_hash ≡ false
      → (compare_cached git repo false local_name remote_name c).0 ≡ ok rp
      → (rp.local ≡ some l) × (rp.remote ≡ r) × IsFastForward repo r.hash l.hash
  unfolding compare_names resolve_local resolve_remote remote_or_zero compare
  compare_cached-IsFastForward local_name remote_name layer l r c rp new named found there nz h =
      let missed = sym (compare_cached-miss git repo false local_name remote_name c new) ∙ h in
      let (er, el, ff) = compare_local-ok l r c.remote rp (
        wrap-eq-ok "comparing local and remote refs: %w" [] _
          (rw (named, found, there) at missed)) in
      (el, er, ff nz)
