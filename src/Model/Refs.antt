-- ===== src/Model/Refs.antt =====
-- What UpdateRef and DeleteRef do to the references that ResolveRef finds.
use gnoci.Base.{
  ◌≡◌, refl, sym, ap, ◌∙◌, inl, inr, Bool-cases, beq_refl, Bool, true, false, ◌||◌, ◌&&◌, [], ◌∷◌,
  Option, none, some, Text, text_eq, ◌==◌, arith, if◌then◌else◌, List, ◌↔◌, ◌⊎◌, In, map,
}
use gnoci.Base.Dict.{Dict, erase, entries, lookup-insert, lookup-erase}
use gnoci.Outcome.{ok, err, sentinel, wrapf, is_ok, reference_not_found}
use gnoci.Oci.{Descriptor}
use gnoci.Plumbing.{Reference, GoGit}
use gnoci.Oci.{ReferenceInfo, ConfigGit}
use gnoci.Model.{Modeler, has_layer, update_ref, resolve_ref, delete_ref, erase_key, unsupported}

-- Both maps of the config are made, so that writing to them does not panic.
pub record IsMade (cfg : ConfigGit) : Type 0 where
  pub heads_made : (d : Dict ReferenceInfo) × (cfg.heads ≡ some d)
  pub tags_made : (d : Dict ReferenceInfo) × (cfg.tags ≡ some d)

entries-erase_key :
    (k : Text) (d : Option (Dict ReferenceInfo)) → entries (erase_key k d) ≡ erase k (entries d)
unfolding erase_key erase
entries-erase_key k none = refl
entries-erase_key k (some d) = refl

module _ (git : GoGit) where
  -- After UpdateRef of a branch or a tag, with a layer of the manifest and on a config with both maps,
  -- the name resolves to the commit, as go-git reads back the text of its hash, and to the layer;
  -- every other name resolves as before.
  pub resolve_ref-update_ref :
      (ref : Reference) (layer name : Text) (m : Modeler)
      → IsMade m.cfg
      → has_layer layer m.man.layers ≡ true
      → (git.is_branch ref.name || git.is_tag ref.name) ≡ true
      → resolve_ref git name (update_ref git ref layer m).1 ≡ (
          if ref.name == name
          then ok (record { name = name; hash = git.new_hash (git.hash_string ref.hash) }, layer)
          else resolve_ref git name m)
  unfolding resolve_ref update_ref
  resolve_ref-update_ref ref layer name m made here known =
      let (h, eh) = made.heads_made in
      let (t, et) = made.tags_made in
      ground (
        arith,
        eh,
        et,
        text_eq.beq_iff ref.name name,
        lookup-insert ref.name name (record { commit = git.hash_string ref.hash; layer = layer }) h,
        lookup-insert ref.name name (record { commit = git.hash_string ref.hash; layer = layer }) t,
      )

  -- After DeleteRef of a branch or a tag the name is not found, and every other name resolves as
  -- before.
  pub resolve_ref-delete_ref :
      (gone name : Text) (m : Modeler)
      → (git.is_branch gone || git.is_tag gone) ≡ true
      → resolve_ref git name (delete_ref git gone m).1 ≡ (
          if gone == name
          then err (wrapf "%w: %s" (name ∷ []) (sentinel reference_not_found))
          else resolve_ref git name m)
  unfolding resolve_ref delete_ref
  resolve_ref-delete_ref gone name m known = ground (
    arith,
    text_eq.beq_iff gone name,
    entries-erase_key gone m.cfg.heads,
    entries-erase_key gone m.cfg.tags,
    lookup-erase gone name (entries m.cfg.heads),
    lookup-erase gone name (entries m.cfg.tags),
  )

  -- UpdateRef can store the reference: the layer is in the manifest, and the name is that of a
  -- branch or a tag.
  abbrev pub storable : Reference → Text → Modeler → Bool
  storable ref layer m =
      has_layer layer m.man.layers && (git.is_branch ref.name || git.is_tag ref.name)

  pub update_ref-storable :
      (ref : Reference) (layer : Text) (m : Modeler)
      → IsMade m.cfg
      → (is_ok (update_ref git ref layer m).0 ≡ storable ref layer m)
        × ((update_ref git ref layer m).1
            ≡ (if storable ref layer m then (update_ref git ref layer m).1 else m))
  unfolding update_ref
  update_ref-storable ref layer m made =
      let (h, eh) = made.heads_made in
      let (t, et) = made.tags_made in (ground (arith, eh, et), ground (arith, eh, et))

  has_layer-In :
      (layer : Text) (descs : List Descriptor)
      → (has_layer layer descs ≡ true) ↔ In layer (map (λ d. d.digest) descs)
  unfolding has_layer
  has_layer-In layer [] = (λ h. cc, λ i. elim i [ ])
  has_layer-In layer (d ∷ descs) = elim (Bool-cases (d.digest == layer)) [
    | inl e ↦ (λ h. inl (sym ((text_eq.beq_iff d.digest layer).0 e)), λ i. rw e refl)
    | inr n ↦ (
      λ h. inr ((has_layer-In layer descs).0 (rw n at h)),
      λ i. elim i [
        | inl same ↦ let e = (text_eq.beq_iff d.digest layer).1 (sym same) in cc
        | inr later ↦ rw n ((has_layer-In layer descs).1 later)
      ],
    )
  ]

  storable_iff :
      (ref : Reference) (layer : Text) (m : Modeler)
      → (storable ref layer m ≡ true) ↔ (
          In layer (map (λ d. d.digest) m.man.layers)
          × ((git.is_branch ref.name ≡ true) ⊎ (git.is_tag ref.name ≡ true)))
  storable_iff ref layer m = (
    λ s. (
      (has_layer-In layer m.man.layers).0 (ground (arith, s)),
      elim (Bool-cases (git.is_branch ref.name)) [
        | inl b ↦ inl b
        | inr b ↦ inr (ground (arith, s, b))
      ],
    ),
    λ (there, known).
        let here = (has_layer-In layer m.man.layers).1 there in
        elim known [ inl b ↦ rw (here, b) refl | inr t ↦ ground (arith, here, t) ],
  )

  -- On a config with both maps UpdateRef returns no error exactly if one of the manifest's layers has
  -- the digest and the name is that of a branch or a tag; an error leaves the modeler as it was.
  pub update_ref_outcome :
      (ref : Reference) (layer : Text) (m : Modeler)
      → IsMade m.cfg
      → ((is_ok (update_ref git ref layer m).0 ≡ true) ↔ (
          In layer (map (λ d. d.digest) m.man.layers)
          × ((git.is_branch ref.name ≡ true) ⊎ (git.is_tag ref.name ≡ true))))
        × (is_ok (update_ref git ref layer m).0 ≡ false → (update_ref git ref layer m).1 ≡ m)
  update_ref_outcome ref layer m made =
      let (ends, left) = update_ref-storable ref layer m made in
      (
        (
          λ done. (storable_iff ref layer m).0 (sym ends ∙ done),
          λ fits. ends ∙ (storable_iff ref layer m).1 fits,
        ),
        λ failed. let n = sym ends ∙ failed in rw n at left,
      )

  pub resolve_ref-unsupported :
      (name : Text) (m : Modeler)
      → (git.is_branch name || git.is_tag name) ≡ false
      → resolve_ref git name m ≡ unsupported git name
  unfolding resolve_ref
  resolve_ref-unsupported name m h = ground (arith, h)

  pub resolve_ref-name :
      (name layer : Text) (r : Reference) (m : Modeler)
      → resolve_ref git name m ≡ ok (r, layer)
      → r.name ≡ name
  unfolding resolve_ref
  resolve_ref-name name layer r m h = ground (arith, h)

  pub delete_ref-ok :
      (name : Text) (m : Modeler)
      → (git.is_branch name || git.is_tag name) ≡ true
      → (delete_ref git name m).0 ≡ ok tt
  unfolding delete_ref
  delete_ref-ok name m known = ground (arith, known)

  pub resolve_ref-delete_other :
      (gone name : Text) (m : Modeler)
      → (git.is_branch gone || git.is_tag gone) ≡ true
      → (gone == name) ≡ false
      → resolve_ref git name (delete_ref git gone m).1 ≡ resolve_ref git name m
  resolve_ref-delete_other gone name m known apart =
      rw apart at (resolve_ref-delete_ref gone name m known)

  pub resolve_ref-update_other :
      (ref : Reference) (layer name : Text) (m : Modeler)
      → IsMade m.cfg
      → (ref.name == name) ≡ false
      → resolve_ref git name (update_ref git ref layer m).1 ≡ resolve_ref git name m
  resolve_ref-update_other ref layer name m made apart =
      let (_, same) = update_ref-storable ref layer m made in
      elim (Bool-cases (storable ref layer m)) [
        | inl s ↦
            rw apart at
              (resolve_ref-update_ref ref layer name m made (ground (arith, s)) (ground (arith, s)))
        | inr n ↦ ap (resolve_ref git name) (rw n at same)
      ]

  pub resolve_ref-update_same :
      (ref : Reference) (layer : Text) (m : Modeler)
      → IsMade m.cfg
      → (update_ref git ref layer m).0 ≡ ok tt
      → resolve_ref git ref.name (update_ref git ref layer m).1
        ≡ ok (record { name = ref.name; hash = git.new_hash (git.hash_string ref.hash) }, layer)
  resolve_ref-update_same ref layer m made done =
      let (stored, _) = update_ref-storable ref layer m made in
      let s : storable ref layer m ≡ true = sym stored ∙ ap is_ok done in
      rw (beq_refl ref.name) at
        (resolve_ref-update_ref ref layer ref.name m made (ground (arith, s)) (ground (arith, s)))
