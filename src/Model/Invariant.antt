-- ===== src/Model/Invariant.antt =====
-- No reference without its packfile: every branch and tag of the config stands in its own map and
-- names a layer of the manifest. All that a push does to the modeler keeps this.
use gnoci.Base.{
  List, [], ◌∷◌, ◌++◌, ◌≡◌, true, Option, none, some, Text, text_eq, ◌==◌, All, arith, Bool-cases,
  inl, inr,
}
use gnoci.Base.Dict.{Dict, insert, erase, entries}
use gnoci.Outcome.Keeps.{
  Keeps, Keeps-pure, Keeps-lift, Keeps-bind, Keeps-then, Keeps-attempt, Keeps-wrapping, Keeps-part,
  Keeps-beside, Keeps-modify,
}
use gnoci.Model.Session.{Outside, Session, add_pack}
use gnoci.Plumbing.{Reference, GoGit}
use gnoci.Oci.{ReferenceInfo, Descriptor}
use gnoci.Model.{
  Modeler, has_layer, update_ref, update_refs, delete_ref, erase_key, set_heads, set_tags,
  insert_key,
}

module _ {ℓ} {V : Type ℓ} (P : Text × V → Type ℓ) where
  pub All-insert : (k : Text) (v : V) (d : Dict V) → P (k, v) → All P d → All P (insert k v d)
  unfolding insert
  All-insert k v [] p h = (p, h)
  All-insert k v ((j, w) ∷ d) p h = elim (Bool-cases (j == k)) [
    | inl e ↦ rw e (p, h.1)
    | inr e ↦ rw e (h.0, All-insert k v d p h.1)
  ]

  pub All-erase : (k : Text) (d : Dict V) → All P d → All P (erase k d)
  unfolding erase
  All-erase k [] h = h
  All-erase k ((j, w) ∷ d) h = elim (Bool-cases (j == k)) [
    | inl e ↦ rw e (All-erase k d h.1)
    | inr e ↦ rw e (h.0, All-erase k d h.1)
  ]

pub All-weaken {ℓ κ} :
    {A : Type ℓ} {P Q : A → Type κ} (xs : List A) → ((x : A) → P x → Q x) → All P xs → All Q xs
All-weaken [] f h = h
All-weaken (x ∷ xs) f h = (f x h.0, All-weaken xs f h.1)

pub has_layer-append :
    (d : Text) (ls more : List Descriptor) → has_layer d ls ≡ true → has_layer d (ls ++ more) ≡ true
unfolding has_layer
has_layer-append d [] more h = cc
has_layer-append d (l ∷ ls) more h = ground (arith, has_layer-append d ls more)

pub has_layer-last :
    (l : Descriptor) (ls : List Descriptor) → has_layer l.digest (ls ++ (l ∷ [])) ≡ true
unfolding has_layer
has_layer-last l [] = ground (arith, text_eq.beq_iff l.digest l.digest)
has_layer-last l (x ∷ ls) = ground (arith, has_layer-last l ls)

module _ (git : GoGit) where
  abbrev pub HeadPlaced : List Descriptor → Text × ReferenceInfo → Type 0
  HeadPlaced layers e = (git.is_branch e.0 ≡ true) × (has_layer e.1.layer layers ≡ true)

  abbrev pub TagPlaced : List Descriptor → Text × ReferenceInfo → Type 0
  TagPlaced layers e = (git.is_tag e.0 ≡ true) × (has_layer e.1.layer layers ≡ true)

  pub record IsWellFormed (m : Modeler) : Type 0 where
    pub heads_placed : All (HeadPlaced m.man.layers) (entries m.cfg.heads)
    pub tags_placed : All (TagPlaced m.man.layers) (entries m.cfg.tags)

  set_heads-IsWellFormed :
      (k : Text) (v : ReferenceInfo) (h : Option (Dict ReferenceInfo)) (m : Modeler)
      → HeadPlaced m.man.layers (k, v)
      → All (HeadPlaced m.man.layers) (entries h)
      → IsWellFormed m
      → IsWellFormed (set_heads (insert_key k v h) m).1
  unfolding set_heads insert_key
  set_heads-IsWellFormed k v none m p a w = w
  set_heads-IsWellFormed k v (some d) m p a w = record {
    heads_placed = All-insert _ k v d p a;
    tags_placed = w.tags_placed;
  }

  set_tags-IsWellFormed :
      (k : Text) (v : ReferenceInfo) (h : Option (Dict ReferenceInfo)) (m : Modeler)
      → TagPlaced m.man.layers (k, v)
      → All (TagPlaced m.man.layers) (entries h)
      → IsWellFormed m
      → IsWellFormed (set_tags (insert_key k v h) m).1
  unfolding set_tags insert_key
  set_tags-IsWellFormed k v none m p a w = w
  set_tags-IsWellFormed k v (some d) m p a w = record {
    heads_placed = w.heads_placed;
    tags_placed = All-insert _ k v d p a;
  }

  erase_key-All :
      (P : Text × ReferenceInfo → Type 0) (k : Text) (h : Option (Dict ReferenceInfo))
      → All P (entries h)
      → All P (entries (erase_key k h))
  unfolding erase_key
  erase_key-All P k none a = a
  erase_key-All P k (some d) a = All-erase P k d a

  -- UpdateRef, whether it succeeds or not, keeps every reference in a layer of the manifest.
  pub update_ref-IsWellFormed :
      (ref : Reference) (layer : Text) (m : Modeler)
      → IsWellFormed m
      → IsWellFormed (update_ref git ref layer m).1
  unfolding update_ref
  update_ref-IsWellFormed ref layer m w = elim (Bool-cases (has_layer layer m.man.layers)) [
    | inr missing ↦ rw missing w
    | inl here ↦ rw here (elim (Bool-cases (git.is_branch ref.name)) [
      | inl b ↦ rw b (set_heads-IsWellFormed _ _ m.cfg.heads m (b, here) w.heads_placed w)
      | inr nb ↦ rw nb (elim (Bool-cases (git.is_tag ref.name)) [
        | inl t ↦ rw t (set_tags-IsWellFormed _ _ m.cfg.tags m (t, here) w.tags_placed w)
        | inr nt ↦ rw nt w
      ])
    ])
  ]

  pub delete_ref-IsWellFormed :
      (name : Text) (m : Modeler) → IsWellFormed m → IsWellFormed (delete_ref git name m).1
  unfolding delete_ref
  delete_ref-IsWellFormed name m w = elim (Bool-cases (git.is_branch name)) [
    | inl b ↦ rw b (record {
      heads_placed = erase_key-All _ name m.cfg.heads w.heads_placed;
      tags_placed = w.tags_placed;
    })
    | inr nb ↦ rw nb (elim (Bool-cases (git.is_tag name)) [
      | inl t ↦ rw t (record {
        heads_placed = w.heads_placed;
        tags_placed = erase_key-All _ name m.cfg.tags w.tags_placed;
      })
      | inr nt ↦ rw nt w
    ])
  ]

  update_refs-IsWellFormed :
      (refs : List Reference) (layer : Text) → Keeps IsWellFormed (update_refs git refs layer)
  unfolding update_refs
  update_refs-IsWellFormed [] layer = Keeps-pure []
  update_refs-IsWellFormed (ref ∷ refs) layer =
      Keeps-bind _ _ (Keeps-attempt _ (record { after = update_ref-IsWellFormed ref layer }))
        λ updated. Keeps-bind _ _ (update_refs-IsWellFormed refs layer) (λ errs. Keeps-pure _)

  -- A layer more in the manifest takes nothing away.
  pub append_layer-IsWellFormed :
      (desc : Descriptor) (m : Modeler)
      → IsWellFormed m
      → IsWellFormed (record m { man = record m.man { layers = m.man.layers ++ (desc ∷ []) } })
  append_layer-IsWellFormed desc m w = record {
    heads_placed =
        All-weaken (entries m.cfg.heads)
          (λ e p. (p.0, has_layer-append e.1.layer m.man.layers (desc ∷ []) p.1)) w.heads_placed;
    tags_placed =
        All-weaken (entries m.cfg.tags)
          (λ e p. (p.0, has_layer-append e.1.layer m.man.layers (desc ∷ []) p.1)) w.tags_placed;
  }

-- The references of a session's modeler are placed.
abbrev pub SessionWellFormed : {T F : Type 0} → GoGit → Session T F → Type 0
SessionWellFormed git s = IsWellFormed git s.model

module _ {T F : Type 0} (out : Outside T F) where
  -- AddPack keeps every reference in a layer of the manifest, whatever references it is given and
  -- however it ends.
  pub add_pack-IsWellFormed :
      (path : Text) (refs : List Reference)
      → Keeps (SessionWellFormed out.git) (add_pack out path refs)
  unfolding add_pack
  add_pack-IsWellFormed path refs =
      Keeps-bind _ _ (Keeps-wrapping _ _ _ (Keeps-beside _ _ _ _ (λ s q w. w))) λ desc.
        Keeps-then _ _ (Keeps-modify _ (λ s w. append_layer-IsWellFormed out.git desc s.model w)) (
          Keeps-bind _ _
            (Keeps-part _ _ (IsWellFormed out.git) _
              (update_refs-IsWellFormed out.git refs desc.digest) (λ s q w. w))
            λ errs.
              Keeps-then _ _
                (Keeps-modify _
                  (λ s w. record { heads_placed = w.heads_placed; tags_placed = w.tags_placed }))
                (Keeps-then _ _ (Keeps-lift _) (Keeps-pure _)))
