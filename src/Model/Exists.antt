-- ===== src/Model/Exists.antt =====
-- What CommitExists finds: the layer of a reference that the commit is an ancestor of.
use gnoci.Base.{
  List, [], ◌∷◌, ◌≡◌, refl, ◌⊎◌, inl, inr, Bool, true, false, Text, All, In, arith, if◌then◌else◌,
}
use gnoci.Base.Dict.{Dict}
use gnoci.Outcome.{ok, wrap, bind-eq-ok, wrap-eq-ok}
use gnoci.Plumbing.{Hash, Commit, GoGit, Repository}
use gnoci.Oci.{Descriptor}
use gnoci.Model.{Modeler, in_commits, in_layers, commit_exists, commits_at}

module _ (git : GoGit) (local : Repository) (commit : Commit) where
  -- What go-git answers when asked whether the commit is an ancestor of this one
  pub record Answered (answer : Bool) (tip : Hash) : Type 0 where
    pub existing : Commit
    pub found : local.commit_object tip ≡ ok existing
    pub is_ancestor : local.is_ancestor commit existing ≡ ok answer

  -- A commit that holds the given one
  abbrev pub Holding : List Hash → Type 0
  Holding tips = (tip : Hash) × In tip tips × Answered true tip

  abbrev pub Sought : Bool → List Hash → Type 0
  Sought true tips = Holding tips
  Sought false tips = All (Answered false) tips

  Sought-cons :
      (tip : Hash) (tips : List Hash) (here found : Bool)
      → Answered here tip
      → (here ≡ false → in_commits git local commit tips ≡ ok found → Sought found tips)
      → (if here then ok true else in_commits git local commit tips) ≡ ok found
      → Sought found (tip ∷ tips)
  Sought-cons tip tips true true a rest h = (tip, inl refl, a)
  Sought-cons tip tips true false a rest h = cc
  Sought-cons tip tips false true a rest h = let (t, i, x) = rest refl h in (t, inr i, x)
  Sought-cons tip tips false false a rest h = (a, rest refl h)

  in_commits-Sought :
      (tips : List Hash) (found : Bool)
      → in_commits git local commit tips ≡ ok found
      → Sought found tips
  unfolding in_commits
  in_commits-Sought [] true h = cc
  in_commits-Sought [] false h = tt
  in_commits-Sought (tip ∷ tips) found h =
      let at_tip =
        wrap "resolving commit object for remote head commit %s: %w" (git.hash_string tip ∷ [])
          (local.commit_object tip) in
      let (existing, e, h1) = bind-eq-ok at_tip _ h in
      let asked =
        wrap "resolving ancestral status of commit to remote head commit %s: %w"
          (git.hash_string tip ∷ []) (local.is_ancestor commit existing) in
      let (here, a, h2) = bind-eq-ok asked _ h1 in
      Sought-cons tip tips here found
        (record {
          existing = existing;
          found =
              wrap-eq-ok "resolving commit object for remote head commit %s: %w"
                (git.hash_string tip ∷ []) _ e;
          is_ancestor =
              wrap-eq-ok "resolving ancestral status of commit to remote head commit %s: %w"
                (git.hash_string tip ∷ []) (local.is_ancestor commit existing) a;
        })
        (λ _ hr. in_commits-Sought tips found hr) h2

  -- The digest is that of one of the layers, and the commit is an ancestor of a tip kept in it.
  abbrev pub FoundIn : List Descriptor → Dict (List Hash) → Text → Type 0
  FoundIn layers by_layer digest =
      (layer : Descriptor) × In layer layers
      × (layer.digest ≡ digest)
      × Sought true (commits_at digest by_layer)

  -- The commit is an ancestor of no tip of the layers.
  abbrev pub FoundNowhere : List Descriptor → Dict (List Hash) → Type 0
  FoundNowhere layers by_layer = All (λ l. Sought false (commits_at l.digest by_layer)) layers

  Found-cons :
      (l : Descriptor) (ls : List Descriptor) (by_layer : Dict (List Hash)) (digest : Text)
      (here : Bool)
      → in_commits git local commit (commits_at l.digest by_layer) ≡ ok here
      → (in_layers git local commit ls by_layer ≡ ok digest
          → FoundIn ls by_layer digest ⊎ ((digest ≡ []) × FoundNowhere ls by_layer))
      → (if here then ok l.digest else in_layers git local commit ls by_layer) ≡ ok digest
      → FoundIn (l ∷ ls) by_layer digest ⊎ ((digest ≡ []) × FoundNowhere (l ∷ ls) by_layer)
  Found-cons l ls by_layer digest true e rest h =
      let same : l.digest ≡ digest = ground (arith, h) in
      inl (l, inl refl, same, rw same at (in_commits-Sought _ true e))
  Found-cons l ls by_layer digest false e rest h = elim (rest h) [
    | inl (layer, i, same, s) ↦ inl (layer, inr i, same, s)
    | inr (none_here, s) ↦ inr (none_here, (in_commits-Sought _ false e, s))
  ]

  in_layers-result :
      (layers : List Descriptor) (by_layer : Dict (List Hash)) (digest : Text)
      → in_layers git local commit layers by_layer ≡ ok digest
      → FoundIn layers by_layer digest ⊎ ((digest ≡ []) × FoundNowhere layers by_layer)
  unfolding in_layers
  in_layers-result [] by_layer digest h = inr (ground (arith, h), tt)
  in_layers-result (l ∷ ls) by_layer digest h =
      let (here, e, h1) =
        bind-eq-ok (in_commits git local commit (commits_at l.digest by_layer)) _ h in
      Found-cons l ls by_layer digest here e (in_layers-result ls by_layer digest) h1

  -- CommitExists answers with a layer of the manifest in which a recorded tip has the commit as an
  -- ancestor; or it answers with no layer, and the commit is then an ancestor of no tip recorded for
  -- a layer of the manifest.
  pub commit_exists-result :
      (m : Modeler) (digest : Text)
      → commit_exists git local commit m ≡ ok digest
      → FoundIn m.man.layers m.refs_by_layer digest
        ⊎ ((digest ≡ []) × FoundNowhere m.man.layers m.refs_by_layer)
  unfolding commit_exists
  commit_exists-result m digest h = in_layers-result m.man.layers m.refs_by_layer digest h
