-- ===== src/Refcomp/Named.antt =====
-- What a pair that the comparer makes says of the names that it was asked for.
use Prim.Native.Nat.{bit_or}
use gnoci.Base.{
  [], ◌∷◌, ◌≡◌, refl, ◌∙◌, ap, sym, ◌⊎◌, inl, inr, Bool, true, false, ◌||◌, Text, Option, none,
  some, ◌==◌, text_eq, arith, Bool-cases,
}
use gnoci.Outcome.{Result, ok, err, crash, Error, wrap, bind-eq-ok, wrap-eq-ok}
use gnoci.Outcome.Succeeds.{ok-injective}
use gnoci.Plumbing.{Reference, GoGit, Repository}
use gnoci.Model.{Modeler, commit_exists, resolve_ref}
use gnoci.Model.Refs.{resolve_ref-name, resolve_ref-unsupported}
use gnoci.Refcomp.{
  RefPair, Status, has_status, status_delete, status_update_ref, base_status, compare_local,
  compare, compare_names, resolve_local, resolve_remote, remote_or_zero,
}
use gnoci.Refcomp.Pairs.{compare_remote-Extends}

module _ (git : GoGit) (repo : Repository) where
  -- The pair is for an update: the local name is that of this reference.
  pub record IsUpdate (local_name : Text) (rp : RefPair) (local_ref : Reference) : Type 0 where
    pub local_is : rp.local ≡ some local_ref
    pub resolved : repo.reference local_name ≡ ok local_ref
    pub not_deleted : has_status rp.status status_delete ≡ false
    pub updated : has_status rp.status status_update_ref ≡ true

  pub record IsFor (local_name remote_name : Text) (rp : RefPair) : Type 0 where
    pub name_is : rp.remote.name ≡ remote_name
    pub supported : (git.is_branch remote_name || git.is_tag remote_name) ≡ true
    pub asked :
        ((local_name ≡ []) × (has_status rp.status status_delete ≡ true))
        ⊎ ((l : Reference) × IsUpdate local_name rp l)

  status_kept :
      (force : Bool) (layer : Text) (status : Status)
      → (status ≡ base_status git repo force layer)
        ⊎ (status ≡ bit_or (base_status git repo force layer) status_update_ref)
      → (has_status status status_delete ≡ false) × (has_status status status_update_ref ≡ true)
  status_kept force layer status e = by_layer (layer == []) refl force e
    where
      by_layer :
          (empty : Bool)
          → (layer == []) ≡ empty
          → (force : Bool)
          → (status ≡ base_status git repo force layer)
            ⊎ (status ≡ bit_or (base_status git repo force layer) status_update_ref)
          → (has_status status status_delete ≡ false) × (has_status status status_update_ref ≡ true)
      by_layer true h true (inl e) = rw (e, h) (refl, refl)
      by_layer true h true (inr e) = rw (e, h) (refl, refl)
      by_layer true h false (inl e) = rw (e, h) (refl, refl)
      by_layer true h false (inr e) = rw (e, h) (refl, refl)
      by_layer false h true (inl e) = rw (e, h) (refl, refl)
      by_layer false h true (inr e) = rw (e, h) (refl, refl)
      by_layer false h false (inl e) = rw (e, h) (refl, refl)
      by_layer false h false (inr e) = rw (e, h) (refl, refl)

  resolve_remote-name :
      (name : Text) (m : Modeler) (r : Reference)
      → resolve_remote git repo name m ≡ ok r
      → r.name ≡ name
  unfolding resolve_remote remote_or_zero
  resolve_remote-name name m r h = of_result (resolve_ref git name m) refl h
    where
      of_result :
          (x : Result (Reference × Text))
          → resolve_ref git name m ≡ x
          → remote_or_zero git repo name x ≡ ok r
          → r.name ≡ name
      of_result (ok (ref, layer)) e k =
          let same : ref ≡ r = cc in rw (← same) (resolve_ref-name git name layer ref m e)
      of_result (err x) e k = ground (arith, k)
      of_result (crash c) e k = cc

  resolve_remote-supported :
      (name : Text) (m : Modeler) (r : Reference)
      → resolve_remote git repo name m ≡ ok r
      → (git.is_branch name || git.is_tag name) ≡ true
  unfolding resolve_remote remote_or_zero
  resolve_remote-supported name m r h = elim (Bool-cases (git.is_branch name || git.is_tag name)) [
    | inl known ↦ known
    | inr other ↦ absurd (never (rw (resolve_ref-unsupported git name m other) at h))
  ]
    where
      never : {e : Error} → ¬ (err e ≡ ok r)
      never k = cc

  resolve_local-name :
      (name : Text) (l : Option Reference)
      → resolve_local git repo name ≡ ok l
      → ((name ≡ []) × (l ≡ none)) ⊎ ((r : Reference) × (l ≡ some r) × (repo.reference name ≡ ok r))
  unfolding resolve_local
  resolve_local-name name l h = elim (Bool-cases (name == [])) [
    | inl e ↦
        let gone : none ≡ l = ok-injective (rw e at h) in
        inl ((text_eq.beq_iff name []).0 e, sym gone)
    | inr e ↦
        let (r, found, last) =
          bind-eq-ok
            (wrap "resolving hash of local reference %s: %w" (name ∷ []) (repo.reference name)) _
            (rw e at h) in
        inr (r, sym (ok-injective last), wrap-eq-ok _ _ _ found)
  ]

  -- What compare makes of a local reference
  compare_local-kept :
      (force : Bool) (local_ref remote_ref : Reference) (m : Modeler) (rp : RefPair)
      → compare_local git repo force local_ref remote_ref m ≡ ok rp
      → (rp.remote ≡ remote_ref)
        × (rp.local ≡ some local_ref)
        × (has_status rp.status status_delete ≡ false)
        × (has_status rp.status status_update_ref ≡ true)
  unfolding compare_local
  compare_local-kept force local_ref remote_ref m rp h =
      let (lc, elc, h1) =
        bind-eq-ok
          (wrap "resolving commit object %s from hash for local ref %s: %w"
            (git.hash_string local_ref.hash ∷ local_ref.name ∷ [])
            (repo.commit_object local_ref.hash))
          _ h in
      let (layer, elayer, h2) =
        bind-eq-ok
          (wrap "resolving existence of commit %s in remote: %w" (git.hash_string lc.hash ∷ [])
            (commit_exists git repo lc m))
          _ h1 in
      let (_, status, local_same, remote_same) =
        compare_remote-Extends git repo force
          (record {
            local = some local_ref;
            remote = remote_ref;
            status = base_status git repo force layer;
            layer = layer;
          })
          rp local_ref lc h2 in
      let (kept, updated) = status_kept force layer rp.status status in
      (remote_same, local_same, kept, updated)

  compare-none :
      (force : Bool) (remote_ref : Reference) (m : Modeler) (rp : RefPair)
      → compare git repo force none remote_ref m ≡ ok rp
      → (rp.remote ≡ remote_ref) × (has_status rp.status status_delete ≡ true)
  unfolding compare
  compare-none true remote_ref m rp h = (ground (arith, h), ground (arith, h))
  compare-none false remote_ref m rp h = (ground (arith, h), ground (arith, h))

  compare-asked :
      (force : Bool) (local_name : Text) (l : Option Reference) (remote_ref : Reference)
      (m : Modeler) (rp : RefPair)
      → compare git repo force l remote_ref m ≡ ok rp
      → ((local_name ≡ []) × (l ≡ none))
        ⊎ ((r : Reference) × (l ≡ some r) × (repo.reference local_name ≡ ok r))
      → (rp.remote ≡ remote_ref)
        × (((local_name ≡ []) × (has_status rp.status status_delete ≡ true))
            ⊎ ((r : Reference) × IsUpdate local_name rp r))
  compare-asked force local_name none remote_ref m rp h (inl (empty, e)) =
      let (same, deleted) = compare-none force remote_ref m rp h in (same, inl (empty, deleted))
  compare-asked force local_name none remote_ref m rp h (inr (r, e, found)) = cc
  compare-asked force local_name (some l) remote_ref m rp h (inl (empty, e)) = cc
  compare-asked force local_name (some l) remote_ref m rp h (inr (r, e, found)) =
      let (same, local_is, kept, updated) =
        compare_local-kept force l remote_ref m rp (unfold compare in h) in
      (
        same,
        inr (
          l,
          record { local_is = local_is; resolved = cc; not_deleted = kept; updated = updated },
        ),
      )

  pub compare_names-IsFor :
      (force : Bool) (local_name remote_name : Text) (m : Modeler) (rp : RefPair)
      → compare_names git repo force local_name remote_name m ≡ ok rp
      → IsFor local_name remote_name rp
  unfolding compare_names
  compare_names-IsFor force local_name remote_name m rp h =
      let (l, el, h1) = bind-eq-ok (resolve_local git repo local_name) _ h in
      let (r, er, h2) = bind-eq-ok (resolve_remote git repo remote_name m) _ h1 in
      let (same, asked) =
        compare-asked force local_name l r m rp
          (wrap-eq-ok "comparing local and remote refs: %w" [] _ h2)
          (resolve_local-name local_name l el) in
      record {
        name_is = ap (λ x. x.name) same ∙ resolve_remote-name remote_name m r er;
        supported = resolve_remote-supported remote_name m r er;
        asked = asked;
      }
