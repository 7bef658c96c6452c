-- ===== src/Refcomp/Pairs.antt =====
-- The status of the pairs that the comparer returns and keeps in its cache.
use Prim.Native.Nat.{bit_or}
use gnoci.Base.{
  [], ◌∷◌, ◌≡◌, refl, ◌⊎◌, inl, inr, Bool, true, false, Text, Option, none, some, ◌==◌, text_eq,
  All, arith, Bool-cases, nat_beq,
}
use gnoci.Base.Dict.{Dict, lookup}
use gnoci.Outcome.{Result, ok, err, crash, wrap, bind-eq-ok, wrap-eq-ok}
use gnoci.Plumbing.{zero_hash, Reference, Commit, GoGit, Repository}
use gnoci.Model.{Modeler, commit_exists}
use gnoci.Model.Invariant.{All-insert}
use gnoci.Refcomp.{
  Comparer, RefPair, has_status, status_delete, status_add_commit, status_update_ref, base_status,
  check_ancestor, compare_remote, compare_local, compare, compare_names, compare_cached, cached,
  remember, resolve_local, resolve_remote,
}

-- A pair is one for deletion, or its commit is to be added if no layer has it.
abbrev pub AddsCommit : RefPair → Type 0
AddsCommit rp =
    (has_status rp.status status_delete ≡ true)
    ⊎ ((rp.layer == []) ≡ true → has_status rp.status status_add_commit ≡ true)

All-lookup :
    (P : RefPair → Type 0) (k : Text) (d : Dict RefPair) (rp : RefPair)
    → All (λ e. P e.1) d
    → lookup k d ≡ some rp
    → P rp
unfolding lookup
All-lookup P k [] rp a h = cc
All-lookup P k ((j, w) ∷ d) rp a h = elim (Bool-cases (j == k)) [
  | inl e ↦ let same : w ≡ rp = ground (arith, rw e at h) in rw same at a.0
  | inr e ↦ All-lookup P k d rp a.1 (rw e at h)
]

module _ (git : GoGit) (repo : Repository) where
  base_status-adds :
      (force : Bool) (layer : Text)
      → (layer == []) ≡ true
      → (has_status (base_status git repo force layer) status_add_commit ≡ true)
        × (has_status
              (bit_or (base_status git repo force layer) status_update_ref)
              status_add_commit
            ≡ true)
  base_status-adds true layer e = rw e (refl, refl)
  base_status-adds false layer e = rw e (refl, refl)

  -- The test for an ancestor keeps all but the status, and only adds the bit for the update to it.
  abbrev pub Extends : RefPair → RefPair → Type 0
  Extends rp rp' =
      (rp'.layer ≡ rp.layer)
      × ((rp'.status ≡ rp.status) ⊎ (rp'.status ≡ bit_or rp.status status_update_ref))
      × (rp'.local ≡ rp.local)
      × (rp'.remote ≡ rp.remote)

  check_ancestor-Extends :
      (force : Bool) (rp rp' : RefPair) (local_ref : Reference) (ff : Bool)
      → check_ancestor git repo force rp local_ref ff ≡ ok rp'
      → Extends rp rp'
  unfolding check_ancestor
  check_ancestor-Extends force rp rp' local_ref true h =
      (ground (arith, h), inr (ground (arith, h)), ground (arith, h), ground (arith, h))
  check_ancestor-Extends true rp rp' local_ref false h =
      (ground (arith, h), inl (ground (arith, h)), ground (arith, h), ground (arith, h))
  check_ancestor-Extends false rp rp' local_ref false h = cc

  pub compare_remote-Extends :
      (force : Bool) (rp rp' : RefPair) (local_ref : Reference) (local_commit : Commit)
      → compare_remote git repo force rp local_ref local_commit ≡ ok rp'
      → Extends rp rp'
  unfolding compare_remote
  compare_remote-Extends force rp rp' local_ref local_commit h =
      elim (Bool-cases (nat_beq rp.remote.hash zero_hash)) [
        | inl z ↦
            let hz = rw z at h in
            (ground (arith, hz), inr (ground (arith, hz)), ground (arith, hz), ground (arith, hz))
        | inr nz ↦
            let found_remote =
              wrap "resolving commit object from hash for remote ref: %w" []
                (repo.commit_object rp.remote.hash) in
            let (rc, erc, h1) = bind-eq-ok found_remote _ (rw nz at h) in
            let (ff, eff, h2) =
              bind-eq-ok
                (wrap "resolving remote commit ancestor status of local: %w" []
                  (repo.is_ancestor rc local_commit))
                _ h1 in
            check_ancestor-Extends force rp rp' local_ref ff h2
      ]

  compare_local-AddsCommit :
      (force : Bool) (local_ref remote_ref : Reference) (m : Modeler) (rp : RefPair)
      → compare_local git repo force local_ref remote_ref m ≡ ok rp
      → AddsCommit rp
  unfolding compare_local
  compare_local-AddsCommit force local_ref remote_ref m rp h =
      let found =
        wrap "resolving commit object %s from hash for local ref %s: %w"
          (git.hash_string local_ref.hash ∷ local_ref.name ∷ [])
          (repo.commit_object local_ref.hash) in
      let (lc, elc, h1) = bind-eq-ok found _ h in
      let (layer, elayer, h2) =
        bind-eq-ok
          (wrap "resolving existence of commit %s in remote: %w" (git.hash_string lc.hash ∷ [])
            (commit_exists git repo lc m))
          _ h1 in
      let (same, status, _, _) =
        compare_remote-Extends force
          (record {
            local = some local_ref;
            remote = remote_ref;
            status = base_status git repo force layer;
            layer = layer;
          })
          rp local_ref lc h2 in
      inr (λ e.
        let (plain, more) = base_status-adds force layer (rw same at e) in
        elim status [ inl s ↦ rw s plain | inr s ↦ rw s more ])

  compare-AddsCommit :
      (force : Bool) (local : Option Reference) (remote_ref : Reference) (m : Modeler)
      (rp : RefPair)
      → compare git repo force local remote_ref m ≡ ok rp
      → AddsCommit rp
  unfolding compare
  compare-AddsCommit true none remote_ref m rp h = inl (ground (arith, h))
  compare-AddsCommit false none remote_ref m rp h = inl (ground (arith, h))
  compare-AddsCommit force (some l) remote_ref m rp h =
      compare_local-AddsCommit force l remote_ref m rp h

  compare_names-AddsCommit :
      (force : Bool) (local_name remote_name : Text) (m : Modeler) (rp : RefPair)
      → compare_names git repo force local_name remote_name m ≡ ok rp
      → AddsCommit rp
  unfolding compare_names
  compare_names-AddsCommit force local_name remote_name m rp h =
      let (l, el, h1) = bind-eq-ok (resolve_local git repo local_name) _ h in
      let (r, er, h2) = bind-eq-ok (resolve_remote git repo remote_name m) _ h1 in
      compare-AddsCommit force l r m rp (wrap-eq-ok "comparing local and remote refs: %w" [] _ h2)

  -- Every pair in the cache
  abbrev pub CacheAdds : Comparer → Type 0
  CacheAdds c = All (λ e. AddsCommit e.1) c.refs

  -- What a call leaves behind
  abbrev pub Returned : Result RefPair × Comparer → Type 0
  Returned x = CacheAdds x.1 × ((rp : RefPair) → x.0 ≡ ok rp → AddsCommit rp)

  remember-Returned :
      (name : Text) (r : Result RefPair) (c : Comparer)
      → CacheAdds c
      → ((rp : RefPair) → r ≡ ok rp → AddsCommit rp)
      → Returned (remember git repo name r c)
  unfolding remember
  remember-Returned name (ok rp) c a k = (All-insert _ name rp c.refs (k rp refl) a, k)
  remember-Returned name (err e) c a k = (a, k)
  remember-Returned name (crash x) c a k = (a, k)

  cached-Returned :
      (hit : Option RefPair) (force : Bool) (local remote : Text) (c : Comparer)
      → CacheAdds c
      → ((rp : RefPair) → hit ≡ some rp → AddsCommit rp)
      → Returned (cached git repo hit force local remote c)
  unfolding cached
  cached-Returned (some rp) force local remote c a k = (a, λ rp' h. k rp' (ground (arith, h)))
  cached-Returned none force local remote c a k =
      remember-Returned remote _ c a
        (λ rp h. compare_names-AddsCommit force local remote c.remote rp h)

  pub compare_cached-Returned :
      (force : Bool) (local remote : Text) (c : Comparer)
      → CacheAdds c
      → Returned (compare_cached git repo force local remote c)
  unfolding compare_cached
  compare_cached-Returned force local remote c a =
      cached-Returned (lookup remote c.refs) force local remote c a
        (λ rp h. All-lookup AddsCommit remote c.refs rp a h)
