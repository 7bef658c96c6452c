-- ===== src/Model/Packs.antt =====
-- What changes to references leave: the layers of the manifest, and the new packfiles.
use gnoci.Base.{◌≡◌, refl, ap, inl, inr, Bool-cases, List, [], ◌∷◌, Option, Text}
use gnoci.Base.Dict.{Dict}
use gnoci.Outcome.{Error, Result, ok, err, crash, pure}
use gnoci.Outcome.Succeeds.{pairs, bind-ends, attempt-collects}
use gnoci.Outcome.Keeps.{Keeps, Keeps-attempt, Keeps-bind, Keeps-pure}
use gnoci.Oci.{Descriptor, ReferenceInfo}
use gnoci.Plumbing.{GoGit, Reference}
use gnoci.Model.{Modeler, has_layer, set_heads, set_tags, update_ref, update_refs, delete_ref}

-- The layers of the manifest and the new packfiles are these.
abbrev pub HasPacks : List Descriptor → List Descriptor → Modeler → Type 0
HasPacks layers packs m = (m.man.layers ≡ layers) × (m.new_packs ≡ packs)

module _ (git : GoGit) (layers packs : List Descriptor) where
  set_heads-HasPacks :
      (r : Result (Option (Dict ReferenceInfo))) → Keeps (HasPacks layers packs) (set_heads r)
  unfolding set_heads
  set_heads-HasPacks (ok d) = record { after = λ m h. h }
  set_heads-HasPacks (err e) = record { after = λ m h. h }
  set_heads-HasPacks (crash k) = record { after = λ m h. h }

  set_tags-HasPacks :
      (r : Result (Option (Dict ReferenceInfo))) → Keeps (HasPacks layers packs) (set_tags r)
  unfolding set_tags
  set_tags-HasPacks (ok d) = record { after = λ m h. h }
  set_tags-HasPacks (err e) = record { after = λ m h. h }
  set_tags-HasPacks (crash k) = record { after = λ m h. h }

  pub update_ref-HasPacks :
      (ref : Reference) (layer : Text) → Keeps (HasPacks layers packs) (update_ref git ref layer)
  unfolding update_ref
  update_ref-HasPacks ref layer = record {
    after = λ m h. elim (Bool-cases (has_layer layer m.man.layers)) [
      | inr missing ↦ rw missing h
      | inl there ↦ rw there (elim (Bool-cases (git.is_branch ref.name)) [
        | inl b ↦ rw b ((set_heads-HasPacks _).after m h)
        | inr nb ↦ rw nb (elim (Bool-cases (git.is_tag ref.name)) [
          | inl t ↦ rw t ((set_tags-HasPacks _).after m h)
          | inr nt ↦ rw nt h
        ])
      ])
    ];
  }

  pub delete_ref-HasPacks : (name : Text) → Keeps (HasPacks layers packs) (delete_ref git name)
  unfolding delete_ref
  delete_ref-HasPacks name = record {
    after = λ m h. elim (Bool-cases (git.is_branch name)) [
      | inl b ↦ rw b h
      | inr nb ↦ rw nb (elim (Bool-cases (git.is_tag name)) [ inl t ↦ rw t h | inr nt ↦ rw nt h ])
    ];
  }

  pub update_refs-HasPacks :
      (refs : List Reference) (layer : Text)
      → Keeps (HasPacks layers packs) (update_refs git refs layer)
  unfolding update_refs
  update_refs-HasPacks [] layer = Keeps-pure []
  update_refs-HasPacks (ref ∷ refs) layer =
      Keeps-bind _ _ (Keeps-attempt _ (update_ref-HasPacks ref layer))
        λ updated. Keeps-bind _ _ (update_refs-HasPacks refs layer) (λ errs. Keeps-pure _)

module _ (git : GoGit) where
  -- The loop of UpdateRef collects its errors.
  pub update_refs-collects :
      (refs : List Reference) (layer : Text) (m : Modeler) (e : Error)
      → ¬ ((update_refs git refs layer m).0 ≡ err e)
  unfolding update_refs pure
  update_refs-collects [] layer m e h = cc
  update_refs-collects (ref ∷ refs) layer m e h =
      elim (bind-ends _ _ m (update_refs git (ref ∷ refs) layer m).1 (err e) (pairs h refl)
        (λ k x. cc)) [
          | inr (x, at) ↦ attempt-collects _ m x (ap (λ y. y.0) at)
          | inl (updated, (m1, (_, h1))) ↦ elim (bind-ends _ _ m1 _ (err e) h1 (λ k x. cc)) [
            | inr (x, at) ↦ update_refs-collects refs layer m1 x (ap (λ y. y.0) at)
            | inl (errs, (m2, (_, h2))) ↦ cc
          ]
        ]
