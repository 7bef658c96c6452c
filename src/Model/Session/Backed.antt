-- ===== src/Model/Session/Backed.antt =====
-- The layers that Push need not upload, under AddPack.
use mathlib.Core.Path.{subst}
use gnoci.Base.{
  ◌≡◌, ◌≢◌, refl, sym, ap, ◌⊎◌, inl, inr, List, [], ◌∷◌, ◌++◌, In, In-append, In-append_left,
  In-append_right, base_name, Text,
}
use gnoci.Outcome.{
  Action, Error, Result, Crash, join_all, modify, ok, crash, within, lift, wrapping, pure, ◌>>=◌,
  ◌>>◌,
}
use gnoci.Outcome.Keeps.{Keeps, Keeps-beside, Keeps-then, Keeps-lift, Keeps-pure, Keeps-wrapping}
use gnoci.Outcome.Succeeds.{bind-ends}
use gnoci.Oci.{Descriptor, media_type_pack_layer}
use gnoci.Plumbing.{Reference}
use gnoci.Model.{Modeler, update_refs}
use gnoci.Model.Lfs.Updates.{Unreferring}
use gnoci.Model.Packs.{HasPacks, update_refs-HasPacks, update_refs-collects}
use gnoci.Model.Session.{
  Outside, Session, with_files, with_model, edit_model, unless_errors, add_pack,
}

module _ {T F : Type 0} (out : Outside T F) where
  -- The content of a descriptor can be read from the registry.
  abbrev pub Readable : Session T F → Descriptor → Type 0
  Readable s d = (raw : Text) × (out.target.fetch s.target d ≡ ok raw)

  -- A layer that Push will not upload is in the registry.
  abbrev pub Backed : Session T F → Type 0
  Backed s = (d : Descriptor) → In d s.model.man.layers → In d s.model.new_packs ⊎ Readable s d

  -- No layer of the manifest that is no referrer is missing in the registry.
  abbrev pub NoneMissing : Session T F → Type 0
  NoneMissing s = (d : Descriptor) → In d s.model.man.layers → Unreferring out d → Readable s d

  pub Backed-HasPacks :
      (s : Session T F) (m : Modeler)
      → HasPacks s.model.man.layers s.model.new_packs m
      → Backed s
      → Backed (record s { model = m })
  Backed-HasPacks s m (layers, packs) h d i = elim (h d (subst (In d) layers i)) [
    | inl new ↦ inl (subst (In d) (sym packs) new)
    | inr there ↦ inr there
  ]

  pub files-Backed : {A : Type 0} (m : Action F A) → Keeps Backed (with_files m)
  files-Backed m = Keeps-beside _ _ Backed m (λ s q h. h)

  -- Backed but for a layer that Push does not yet upload
  abbrev BackedBut : Descriptor → Session T F → Type 0
  BackedBut e s =
      (d : Descriptor)
      → In d s.model.man.layers
      → In d (s.model.new_packs ++ (e ∷ [])) ⊎ Readable s d

  -- AddPack once the file store has the packfile
  abbrev add_layer : Text → List Reference → Descriptor → Action (Session T F) Descriptor
  add_layer path refs desc = do
    edit_model (λ m. record m { man = record m.man { layers = m.man.layers ++ (desc ∷ []) } })
    errs ← with_model (update_refs out.git refs desc.digest)
    edit_model (λ m. record m { new_packs = m.new_packs ++ (desc ∷ []) })
    lift (unless_errors (join_all errs))
    pure desc

  add_layer-Backed :
      (path : Text) (refs : List Reference) (desc : Descriptor) (s u : Session T F)
      (r : Result Descriptor)
      → Backed s
      → add_layer path refs desc s ≡ (r, u)
      → ((k : Crash) → r ≢ crash k)
      → Backed u
  unfolding modify within
  add_layer-Backed path refs desc s u r h done alive = elim (bind-ends _ _ s u r done alive) [
    | inr (e, at) ↦ cc
    | inl (x1, (s1, (e1, h1))) ↦ elim (bind-ends _ _ s1 u r h1 alive) [
      | inr (e, at) ↦
          absurd (update_refs-collects out.git refs desc.digest s1.model e (ap (λ x. x.0) at))
      | inl (errs, (s2, (e2, h2))) ↦ elim (bind-ends _ _ s2 u r h2 alive) [
        | inr (e, at) ↦ cc
        | inl (x3, (s3, (e3, h3))) ↦ subst Backed (ap (λ x. x.1) h3) (
            (last errs).after s3 (
              subst Backed (ap (λ x. x.1) e3) (
                subst (BackedBut desc) (ap (λ x. x.1) e2)
                  (moved.after s1 (subst (BackedBut desc) (ap (λ x. x.1) e1) one_more)))))
      ]
    ]
  ]
    where
      last : (errs : List Error) → Keeps Backed (lift (unless_errors (join_all errs)) >> pure desc)
      last errs = Keeps-then _ _ (Keeps-lift _) (Keeps-pure desc)

      one_more : BackedBut desc (record s {
        model = record s.model {
          man = record s.model.man { layers = s.model.man.layers ++ (desc ∷ []) };
        };
      })
      one_more d i = elim (In-append d s.model.man.layers (desc ∷ []) i) [
        | inr new ↦ inl (In-append_right d s.model.new_packs _ new)
        | inl old ↦ elim (h d old) [
          | inl n ↦ inl (In-append_left d s.model.new_packs _ n)
          | inr there ↦ inr there
        ]
      ]

      moved : Keeps (BackedBut desc) (with_model (update_refs out.git refs desc.digest))
      moved = record {
        after = λ q back d i.
            let (layers, packs) =
              (update_refs-HasPacks out.git q.model.man.layers q.model.new_packs refs
                  desc.digest).after
                q.model (refl, refl) in
            elim (back d (subst (In d) layers i)) [
              | inl n ↦ inl (subst (λ ps. In d (ps ++ (desc ∷ []))) (sym packs) n)
              | inr there ↦ inr there
            ];
      }

  pub add_pack-Backed :
      (path : Text) (refs : List Reference) (s u : Session T F) (r : Result Descriptor)
      → Backed s
      → add_pack out path refs s ≡ (r, u)
      → ((k : Crash) → r ≢ crash k)
      → Backed u
  unfolding add_pack
  add_pack-Backed path refs s u r h done alive = elim (bind-ends _ _ s u r done alive) [
    | inr (e, at) ↦ subst Backed (ap (λ x. x.1) at) (added.after s h)
    | inl (desc, (s1, (e1, h1))) ↦
        add_layer-Backed path refs desc s1 u r (subst Backed (ap (λ x. x.1) e1) (added.after s h))
          h1 alive
  ]
    where
      added : Keeps Backed (
          wrapping "adding packfile to intermediate file store: %w" []
            (with_files (out.files.add (base_name path) media_type_pack_layer path)))
      added = Keeps-wrapping _ _ _ (files-Backed _)
