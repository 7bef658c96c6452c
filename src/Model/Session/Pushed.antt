-- ===== src/Model/Session/Pushed.antt =====
-- What Push leaves alone: the modeler, if its updates do.
use gnoci.Base.{[], ◌∷◌, List, Text, All}
use gnoci.Outcome.{Action, within}
use gnoci.Outcome.Keeps.{
  Keeps, Keeps-attempt, Keeps-beside, Keeps-bind, Keeps-then, Keeps-lift, Keeps-pure,
  Keeps-wrapping, Keeps-gets, Keeps-asks,
}
use gnoci.Oci.{Descriptor, PackOptions}
use gnoci.Model.Session.{
  Outside, Session, push_pack, push_packs, run_updates, push_metadata, tag_manifest, push,
}

-- A predicate on sessions that the uploads of Push do not change
pub record Unmoved {T F : Type 0} (out : Outside T F) (P : Session T F → Type 0) : Type 0 where
  pub pushed :
      (s : Session T F) (d : Descriptor) (raw : Text)
      → P s
      → P (record s { target = (out.target.push d raw s.target).1 })
  pub bytes_pushed :
      (s : Session T F) (media raw : Text)
      → P s
      → P (record s { target = (out.target.push_bytes media raw s.target).1 })
  pub packed :
      (s : Session T F) (media : Text) (o : PackOptions)
      → P s
      → P (record s { target = (out.target.pack_manifest media o s.target).1 })

module _ {T F : Type 0} (out : Outside T F) (P : Session T F → Type 0) (same : Unmoved out P) where
  pub push_packs-Keeps : (descs : List Descriptor) → Keeps P (push_packs out descs)
  unfolding push_packs push_pack within
  push_packs-Keeps [] = Keeps-pure _
  push_packs-Keeps (desc ∷ descs) =
      Keeps-bind _ _
        (Keeps-attempt _ (
          Keeps-bind _ _ (Keeps-wrapping _ _ _ (Keeps-asks _))
            λ rc. Keeps-wrapping _ _ _ (record { after = λ s h. same.pushed s desc rc h })))
        λ pushed. Keeps-bind _ _ (push_packs-Keeps descs) λ errs. Keeps-pure _

  pub run_updates-Keeps :
      (updates : List (Descriptor → Action (Session T F) (Unit {0}))) (desc : Descriptor)
      → All (λ u. (d : Descriptor) → Keeps P (u d)) updates
      → Keeps P (run_updates out updates desc)
  unfolding run_updates
  run_updates-Keeps [] desc h = Keeps-pure _
  run_updates-Keeps (u ∷ us) desc h =
      Keeps-bind _ _ (Keeps-attempt _ (h.0 desc))
        λ updated. Keeps-bind _ _ (run_updates-Keeps us desc h.1) λ errs. Keeps-pure _

  pub push_metadata-Keeps : Keeps P (push_metadata out)
  unfolding push_metadata within
  push_metadata-Keeps = Keeps-bind _ _ (Keeps-gets _) λ cfg. Keeps-bind _ _ (Keeps-lift _) λ raw.
      Keeps-bind _ _ (Keeps-wrapping _ _ _ (record { after = λ s h. same.bytes_pushed s _ raw h }))
        λ d.
          Keeps-bind _ _ (Keeps-gets _)
            λ layers. Keeps-wrapping _ _ _ (record { after = λ s h. same.packed s _ _ h })

  -- Push keeps what its uploads, its updates and its last step keep.
  pub push-Keeps :
      (updates : List (Descriptor → Action (Session T F) (Unit {0})))
      → All (λ u. (d : Descriptor) → Keeps P (u d)) updates
      → ((s : Session T F) (t : T) → P s → P (record s { target = t }))
      → Keeps P (push out updates)
  unfolding push tag_manifest
  push-Keeps updates h aside = Keeps-bind _ _ (Keeps-gets _) λ packs.
      Keeps-bind _ _ (push_packs-Keeps packs) λ errs. Keeps-then _ _ (Keeps-lift _) (
        Keeps-bind _ _ push_metadata-Keeps λ desc.
          Keeps-bind _ _ (run_updates-Keeps updates desc h) λ errs2. Keeps-then _ _ (Keeps-lift _) (
            Keeps-then _ _
              (Keeps-bind _ _ (Keeps-gets _)
                λ ref. Keeps-wrapping _ _ _ (Keeps-beside _ _ P _ aside))
              (Keeps-pure desc)))
