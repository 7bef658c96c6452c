-- ===== src/Model/Refine.antt =====
-- The references of a modeler as a partial map, which UpdateRef and DeleteRef change.
use gnoci.Base.{
  ◌≡◌, ◌≢◌, refl, ap, ◌∙◌, Bool, true, false, ◌||◌, ◌&&◌, Bool-cases, inl, inr, List, [], ◌∷◌,
  Option, none, some, Text, text_eq, ◌==◌, arith, if◌then◌else◌,
}
use gnoci.Outcome.{Result, ok}
use gnoci.Plumbing.{Hash, Reference, GoGit}
use gnoci.Oci.{Descriptor}
use gnoci.Model.{Modeler, has_layer, update_ref, resolve_ref, delete_ref}
use gnoci.Model.Refs.{
  IsMade, storable, resolve_ref-update_ref, resolve_ref-delete_ref, update_ref-storable,
}

-- A change of a reference, as the push command asks for it
pub data Change : Type 0 where
  update : Reference → Text → Change
  delete : Text → Change

-- A commit and its layer for each name
abbrev pub Refs : Type 0
Refs = Text → Option (Hash × Text)

abbrev pub found : Result (Reference × Text) → Option (Hash × Text)
found (ok (ref, layer)) = some (ref.hash, layer)
found _ = none

some_of : {A : Type 0} (o : Option A) → o ≢ none → (a : A) × (o ≡ some a)
some_of none h = absurd (h refl)
some_of (some a) h = (a, refl)

found-if :
    (b : Bool) (r s : Result (Reference × Text)) {o : Option (Hash × Text)}
    → found r ≡ o
    → found (if b then r else s) ≡ (if b then o else found s)
found-if true r s h = h
found-if false r s h = refl

both : (a b : Bool) → (a && b) ≡ true → (a ≡ true) × (b ≡ true)
both a b h = (ground (arith, h), ground (arith, h))

module _ (git : GoGit) where
  abbrev pub view : Modeler → Refs
  view m name = found (resolve_ref git name m)

  -- The methods, whatever they return
  abbrev pub changed : List Change → Modeler → Modeler
  changed [] m = m
  changed (update ref layer ∷ changes) m = changed changes (update_ref git ref layer m).1
  changed (delete name ∷ changes) m = changed changes (delete_ref git name m).1

  abbrev pub named : Text → Bool
  named name = git.is_branch name || git.is_tag name

  -- What a change does to a map, with the layers of the manifest
  abbrev pub map_change : List Descriptor → Change → Refs → Refs
  map_change layers (update ref layer) refs name =
      if has_layer layer layers && named ref.name
      then (if ref.name == name
          then some (git.new_hash (git.hash_string ref.hash), layer)
          else refs name)
      else refs name
  map_change layers (delete gone) refs name =
      if named gone then (if gone == name then none else refs name) else refs name

  abbrev pub map_changes : List Descriptor → List Change → Refs → Refs
  map_changes layers [] refs = refs
  map_changes layers (c ∷ changes) refs = map_changes layers changes (map_change layers c refs)

  update_ref-layers :
      (ref : Reference) (layer : Text) (m : Modeler)
      → IsMade m.cfg
      → (update_ref git ref layer m).1.man.layers ≡ m.man.layers
  unfolding update_ref
  update_ref-layers ref layer m made =
      let (h, eh) = made.heads_made in let (t, et) = made.tags_made in ground (arith, eh, et)

  delete_ref-layers :
      (name : Text) (m : Modeler) → (delete_ref git name m).1.man.layers ≡ m.man.layers
  unfolding delete_ref
  delete_ref-layers name m = ground arith

  pub update_ref-IsMade :
      (ref : Reference) (layer : Text) (m : Modeler)
      → IsMade m.cfg
      → IsMade (update_ref git ref layer m).1.cfg
  unfolding update_ref
  update_ref-IsMade ref layer m made =
      let (h, eh) = made.heads_made in
      let (t, et) = made.tags_made in
      record {
        heads_made = some_of _ (λ n. ground (arith, eh, et, n));
        tags_made = some_of _ (λ n. ground (arith, eh, et, n));
      }

  pub delete_ref-IsMade :
      (name : Text) (m : Modeler) → IsMade m.cfg → IsMade (delete_ref git name m).1.cfg
  unfolding delete_ref
  delete_ref-IsMade name m made =
      let (h, eh) = made.heads_made in
      let (t, et) = made.tags_made in
      record {
        heads_made = some_of _ (λ n. ground (arith, eh, et, n));
        tags_made = some_of _ (λ n. ground (arith, eh, et, n));
      }

  update_ref-view :
      (ref : Reference) (layer name : Text) (m : Modeler)
      → IsMade m.cfg
      → view (update_ref git ref layer m).1 name
        ≡ map_change m.man.layers (update ref layer) (view m) name
  update_ref-view ref layer name m made = elim (Bool-cases (storable git ref layer m)) [
    | inl e ↦
        let (here, kind) = both _ _ e in
        rw (resolve_ref-update_ref git ref layer name m made here kind, here, kind)
          (found-if (ref.name == name) _ _ refl)
    | inr e ↦ rw ((update_ref-storable git ref layer m made).1, e) refl
  ]

  delete_ref-unknown :
      (gone : Text) (m : Modeler) → named gone ≡ false → (delete_ref git gone m).1 ≡ m
  unfolding delete_ref
  delete_ref-unknown gone m unknown = ground (arith, unknown)

  delete_ref-view :
      (gone name : Text) (m : Modeler)
      → view (delete_ref git gone m).1 name ≡ map_change m.man.layers (delete gone) (view m) name
  delete_ref-view gone name m = elim (Bool-cases (named gone)) [
    | inl e ↦ rw (resolve_ref-delete_ref git gone name m e, e) (found-if (gone == name) _ _ refl)
    | inr e ↦ rw (delete_ref-unknown gone m e, e) refl
  ]

  -- The references of a modeler are a map from names to commits and layers: where both maps of the
  -- config are made, any sequence of calls of UpdateRef and DeleteRef leaves what ResolveRef finds for
  -- each name as the same changes leave it in the map, with those ignored that name no branch or tag
  -- or, for an update, a layer that the manifest does not have.
  pub changed-view :
      (changes : List Change) (m : Modeler) (name : Text)
      → IsMade m.cfg
      → view (changed changes m) name ≡ map_changes m.man.layers changes (view m) name
  changed-view [] m name made = refl
  changed-view (update ref layer ∷ changes) m name made =
      changed-view changes (update_ref git ref layer m).1 name (update_ref-IsMade ref layer m made)
      ∙ rw (update_ref-layers ref layer m made) (
          ap (λ refs. map_changes m.man.layers changes refs name)
            (λ i n. update_ref-view ref layer n m made i))
  changed-view (delete gone ∷ changes) m name made =
      changed-view changes (delete_ref git gone m).1 name (delete_ref-IsMade gone m made)
      ∙ rw (delete_ref-layers gone m) (
          ap (λ refs. map_changes m.man.layers changes refs name)
            (λ i n. delete_ref-view gone n m i))
