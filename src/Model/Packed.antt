-- ===== src/Model/Packed.antt =====
-- What AddPack makes of the references of a packfile.
use gnoci.Base.{
  List, [], ◌∷◌, ◌++◌, ◌≡◌, refl, sym, ap, ◌∙◌, inl, inr, true, false, ◌||◌, Text, Option, none,
  some, ◌==◌, text_eq, All, if◌then◌else◌, Bool-cases, arith,
}
use gnoci.Outcome.{Result, Result-cases, ok, is_ok, attempt, pure, ◌>>=◌}
use gnoci.Plumbing.{Reference, GoGit}
use gnoci.Model.{Modeler, has_layer, resolve_ref, update_ref, update_refs}
use gnoci.Model.Refs.{
  IsMade, storable, update_ref-storable, resolve_ref-update_other, resolve_ref-update_same,
}
use gnoci.Model.Refine.{update_ref-IsMade}

-- The last of the references that has this name
unfoldable pub last_named : Text → List Reference → Option Reference
last_named name [] = none
last_named name (ref ∷ refs) = elim (last_named name refs) [
  | some later ↦ some later
  | none ↦ if ref.name == name then some ref else none
]

pub last_named-append :
    (name : Text) (refs : List Reference) (ref : Reference)
    → last_named name (refs ++ ref ∷ [])
      ≡ (if ref.name == name then some ref else last_named name refs)
unfolding last_named
last_named-append name [] ref = refl
last_named-append name (first ∷ refs) ref = ground (arith, last_named-append name refs ref)

module _ (git : GoGit) where
  -- The names are those of branches and tags.
  abbrev pub AllSupported : List Reference → Type 0
  AllSupported refs = All (λ ref. (git.is_branch ref.name || git.is_tag ref.name) ≡ true) refs

  -- The name as ResolveRef finds it once these references are in this layer
  abbrev pub resolved : Option Reference → Text → Text → Modeler → Result (Reference × Text)
  resolved none layer name m = resolve_ref git name m
  resolved (some ref) layer name m =
      ok (record { name = name; hash = git.new_hash (git.hash_string ref.hash) }, layer)

  update_ref-layers :
      (ref : Reference) (layer : Text) (m : Modeler)
      → IsMade m.cfg
      → (update_ref git ref layer m).1.man ≡ m.man
  unfolding update_ref
  update_ref-layers ref layer m made =
      let (h, eh) = made.heads_made in let (t, et) = made.tags_made in ground (arith, eh, et)

  update_ref-done :
      (ref : Reference) (layer : Text) (m : Modeler)
      → IsMade m.cfg
      → has_layer layer m.man.layers ≡ true
      → (git.is_branch ref.name || git.is_tag ref.name) ≡ true
      → (update_ref git ref layer m).0 ≡ ok tt
  update_ref-done ref layer m made here known =
      let stored : storable git ref layer m ≡ true = ground (arith, here, known) in
      let (ends, _) = update_ref-storable git ref layer m made in
      elim (Result-cases (update_ref git ref layer m).0) [
        | inl (u, e) ↦ e
        | inr (inl (x, e)) ↦ absurd (refused (ap is_ok (sym e) ∙ ends ∙ stored))
        | inr (inr (k, e)) ↦ absurd (refused (ap is_ok (sym e) ∙ ends ∙ stored))
      ]
    where
      refused : ¬ (false ≡ true)
      refused h = cc

  -- One reference more, before the others
  resolved-first :
      (ref : Reference) (later : Option Reference) (layer name : Text) (m : Modeler)
      → IsMade m.cfg
      → (update_ref git ref layer m).0 ≡ ok tt
      → resolved later layer name (update_ref git ref layer m).1
        ≡ resolved
            (elim later [ some x ↦ some x | none ↦ if ref.name == name then some ref else none ])
            layer
            name
            m
  resolved-first ref (some x) layer name m made done = refl
  resolved-first ref none layer name m made done = elim (Bool-cases (ref.name == name)) [
    | inl e ↦
        let same : ref.name ≡ name = (text_eq.beq_iff ref.name name).0 e in
        rw e (rw (← same) (resolve_ref-update_same git ref layer m made done))
    | inr e ↦ rw e (resolve_ref-update_other git ref layer name m made e)
  ]

  -- The loop of AddPack collects no error.
  pub update_refs-resolved :
      (refs : List Reference) (layer : Text) (m : Modeler)
      → IsMade m.cfg
      → has_layer layer m.man.layers ≡ true
      → AllSupported refs
      → ((update_refs git refs layer m).0 ≡ ok [])
        × ((name : Text)
            → resolve_ref git name (update_refs git refs layer m).1
              ≡ resolved (last_named name refs) layer name m)
  unfolding update_refs last_named attempt pure ◌>>=◌
  update_refs-resolved [] layer m made here supported = (refl, λ name. refl)
  update_refs-resolved (ref ∷ refs) layer m made here supported =
      let done = update_ref-done ref layer m made here supported.0 in
      let m' : Modeler = (update_ref git ref layer m).1 in
      let (no_errors, found) =
        update_refs-resolved refs layer m' (update_ref-IsMade git ref layer m made)
          (rw (update_ref-layers ref layer m made) here) supported.1 in
      (
        rw (done, no_errors) refl,
        λ name.
            rw (done, no_errors)
              (found name ∙ resolved-first ref (last_named name refs) layer name m made done),
      )
