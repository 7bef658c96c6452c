-- ===== src/Cmd/Lists/Resolved.antt =====
-- What HandleList lists of a name, against what ResolveRef finds for it.
use gnoci.Base.{
  ◌≡◌, ◌⊎◌, refl, sym, ap, ◌∙◌, inl, inr, Bool, Bool-cases, false, [], ◌∷◌, In, Option, none, some,
  Text, text, text_eq, ◌==◌,
}
use gnoci.Base.Dict.{Dict, lookup, entries}
use gnoci.Outcome.{ok, err, Result, wrapf, sentinel, reference_not_found}
use gnoci.Outcome.Succeeds.{ok-injective}
use gnoci.Oci.{ConfigGit, ReferenceInfo}
use gnoci.Plumbing.{GoGit, Reference, Repository}
use gnoci.Protocol.Lists.{ListResponse}
use gnoci.Model.{Modeler, unsupported, found_ref, resolve_ref, head_refs, tag_refs}
use gnoci.Cmd.Lists.{list_results, entry}
use gnoci.Cmd.Lists.Entries.{results_iff}

-- Names that go-git takes for no branch and no tag, and a config whose heads have no tags and whose
-- tags have no branches
pub record IsApart (git : GoGit) (cfg : ConfigGit) : Type 0 where
  pub head_is_none : (git.is_branch (text "HEAD") ≡ false) × (git.is_tag (text "HEAD") ≡ false)
  pub heads_are :
      (e : Text × ReferenceInfo)
      → In e (entries cfg.heads)
      → git.is_branch e.0 ≡ false
      → git.is_tag e.0 ≡ false
  pub tags_are : (e : Text × ReferenceInfo) → In e (entries cfg.tags) → git.is_branch e.0 ≡ false

lookup-In :
    (name : Text) (refs : Dict ReferenceInfo) (info : ReferenceInfo)
    → lookup name refs ≡ some info
    → In (name, info) refs
unfolding lookup
lookup-In name [] info h = cc
lookup-In name ((other, value) ∷ refs) info h = elim (Bool-cases (other == name)) [
  | inl e ↦ inl (here ((text_eq.beq_iff other name).0 e) (some-injective (rw e at h)))
  | inr e ↦ inr (lookup-In name refs info (rw e at h))
]
  where
    some-injective : {a b : ReferenceInfo} → some a ≡ some b → a ≡ b
    some-injective h = cc

    here : other ≡ name → value ≡ info → ◌≡◌ {A = Text × ReferenceInfo} (name, info) (other, value)
    here a b = λ i. (sym a i, sym b i)

lookup-none :
    (name : Text) (refs : Dict ReferenceInfo) (e : Text × ReferenceInfo)
    → lookup name refs ≡ none
    → In e refs
    → ¬ (e.0 ≡ name)
unfolding lookup
lookup-none name [] e h i same = elim i [ ]
lookup-none name ((other, value) ∷ refs) e h i same = elim (Bool-cases (other == name)) [
  | inl k ↦ absurd (none-some (rw k at h))
  | inr k ↦ elim i [
    | inl at ↦ let k2 = (text_eq.beq_iff other name).1 (sym (ap (λ x. x.0) at) ∙ same) in cc
    | inr later ↦ lookup-none name refs e (rw k at h) later same
  ]
]
  where
    none-some : {a : ReferenceInfo} → ¬ (some a ≡ none)
    none-some h = cc

module _ (git : GoGit) (name : Text) where
  abbrev not_there : {A : Type 0} → Result A
  not_there = err (wrapf "%w: %s" (name ∷ []) (sentinel reference_not_found))

  found-ok :
      (o : Option ReferenceInfo) (ref : Reference) (layer : Text)
      → found_ref git name o ≡ ok (ref, layer)
      → (info : ReferenceInfo) × (o ≡ some info) × (git.new_hash info.commit ≡ ref.hash)
  unfolding found_ref
  found-ok none ref layer h = cc
  found-ok (some info) ref layer h = (info, refl, ap (λ x. x.0.hash) (ok-injective h))

  found-missing : (o : Option ReferenceInfo) → found_ref git name o ≡ not_there → o ≡ none
  unfolding found_ref
  found-missing none h = refl
  found-missing (some info) h = cc

  unsupported-ok : {x : Reference × Text} → ¬ (unsupported git name ≡ ok x)
  unsupported-ok h = cc

  unsupported-missing : {A : Type 0} → ¬ (unsupported git {A = A} name ≡ not_there)
  unsupported-missing h = cc

  module _ (m : Modeler) where
    resolved-Entry :
        (ref : Reference) (layer : Text)
        → resolve_ref git name m ≡ ok (ref, layer)
        → (info : ReferenceInfo) × (In (name, info) (head_refs m) ⊎ In (name, info) (tag_refs m))
          × (git.new_hash info.commit ≡ ref.hash)
    unfolding resolve_ref head_refs tag_refs
    resolved-Entry ref layer h = elim (Bool-cases (git.is_branch name)) [
      | inl b ↦
          let (info, at, same) = found-ok _ ref layer (rw b at h) in
          (info, inl (lookup-In name _ info at), same)
      | inr b ↦ elim (Bool-cases (git.is_tag name)) [
        | inl t ↦
            let (info, at, same) = found-ok _ ref layer (rw (b, t) at h) in
            (info, inr (lookup-In name _ info at), same)
        | inr t ↦ absurd (unsupported-ok (rw (b, t) at h))
      ]
    ]

    -- A name that resolves is listed, with a commit of the hash.
    pub resolved-In :
        (ref : Reference) (layer : Text)
        → resolve_ref git name m ≡ ok (ref, layer)
        → (for_push : Bool) (local : Option Repository)
        → (r : ListResponse) × In r (list_results for_push local m)
          × (r.reference ≡ name)
          × (git.new_hash r.commit ≡ ref.hash)
    resolved-In ref layer h for_push local =
        let (info, there, same) = resolved-Entry ref layer h in
        let listed = results_iff for_push local m (entry (name, info)) in
        elim there [
          | inl i ↦ (entry (name, info), listed.1 (inl ((name, info), i, refl)), refl, same)
          | inr i ↦ (entry (name, info), listed.1 (inr (inl ((name, info), i, refl))), refl, same)
        ]

    module _ (apart : IsApart git m.cfg) where
      no-head :
          (e : Text × ReferenceInfo)
          → resolve_ref git name m ≡ not_there
          → In e (head_refs m)
          → ¬ (e.0 ≡ name)
      unfolding resolve_ref head_refs
      no-head e h i same = elim (Bool-cases (git.is_branch name)) [
        | inl b ↦ lookup-none name _ e (found-missing _ (rw b at h)) i same
        | inr b ↦
            let b2 = ap git.is_branch same ∙ b in
            let t = sym (ap git.is_tag same) ∙ apart.heads_are e i b2 in
            absurd (unsupported-missing (rw (b, t) at h))
      ]

      no-tag :
          (e : Text × ReferenceInfo)
          → resolve_ref git name m ≡ not_there
          → In e (tag_refs m)
          → ¬ (e.0 ≡ name)
      unfolding resolve_ref tag_refs
      no-tag e h i same =
          let b = sym (ap git.is_branch same) ∙ apart.tags_are e i in
          elim (Bool-cases (git.is_tag name)) [
            | inl t ↦ lookup-none name _ e (found-missing _ (rw (b, t) at h)) i same
            | inr t ↦ absurd (unsupported-missing (rw (b, t) at h))
          ]

      not-head : resolve_ref git name m ≡ not_there → ¬ (text "HEAD" ≡ name)
      unfolding resolve_ref
      not-head h same =
          let b = sym (ap git.is_branch same) ∙ apart.head_is_none.0 in
          let t = sym (ap git.is_tag same) ∙ apart.head_is_none.1 in
          unsupported-missing (rw (b, t) at h)

      -- A name that does not resolve is not listed.
      pub missing-In :
          resolve_ref git name m ≡ not_there
          → (for_push : Bool) (local : Option Repository) (r : ListResponse)
          → In r (list_results for_push local m)
          → ¬ (r.reference ≡ name)
      missing-In h for_push local r i same = elim ((results_iff for_push local m r).0 i) [
        | inl (e, there, r_is) ↦ no-head e h there (sym (ap (λ x. x.reference) r_is) ∙ same)
        | inr (inl (e, there, r_is)) ↦ no-tag e h there (sym (ap (λ x. x.reference) r_is) ∙ same)
        | inr (inr (e, there, at, r_is)) ↦ not-head h (sym (ap (λ x. x.reference) r_is) ∙ same)
      ]
