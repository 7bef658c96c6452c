-- ===== src/Model/Session/Added.antt =====
-- What AddPack leaves of the references of branches and tags.
use gnoci.Base.{
  Option, none, some, ◌≡◌, ◌≢◌, refl, ◌∙◌, inl, inr, Bool, true, false, [], ◌∷◌, ◌++◌, List, Text,
}
use gnoci.Outcome.{
  Result, Result-cases, err, crash, Crash, Error, wrapf, is, unsupported_reference_type, pure,
  within, wrapping, modify, ◌>>=◌,
}
use gnoci.Oci.{Descriptor, FileStore, media_type_pack_layer}
use gnoci.Plumbing.{Reference, GoGit}
use gnoci.Base.{base_name}
use gnoci.Model.{Modeler, resolve_ref, update_refs}
use gnoci.Model.Refs.{IsMade}
use gnoci.Model.Packed.{AllSupported, last_named, resolved, update_refs-resolved}
use gnoci.Model.Invariant.{has_layer-last}
use gnoci.Model.Session.{Outside, Session, add_pack, joined}

-- The errors of the file store are not the one for an unsupported reference.
pub record IsForeign {F : Type 0} (files : FileStore F) : Type 0 where
  pub add_errors :
      (name media path : Text) (f : F) (e : Error)
      → (files.add name media path f).0 ≡ err e
      → is unsupported_reference_type e ≡ false

-- The one error that HandlePush goes on with
pub record IsTolerated (r : Result Descriptor) : Type 0 where
  pub unsupported : (e : Error) → r ≡ err e → is unsupported_reference_type e ≡ true
  pub no_crash : (k : Crash) → r ≢ crash k

pub resolve_ref-cfg :
    (git : GoGit) (name : Text) (m n : Modeler)
    → m.cfg ≡ n.cfg
    → resolve_ref git name m ≡ resolve_ref git name n
unfolding resolve_ref
resolve_ref-cfg git name m n e = rw e refl

resolved-cfg :
    (git : GoGit) (ref : Option Reference) (layer name : Text) (m n : Modeler)
    → m.cfg ≡ n.cfg
    → resolved git ref layer name m ≡ resolved git ref layer name n
resolved-cfg git none layer name m n e = resolve_ref-cfg git name m n e
resolved-cfg git (some ref) layer name m n e = refl

both : {b : Bool} → b ≡ true → ¬ (b ≡ false)
both t f = cc

module _ {T F : Type 0} (out : Outside T F) (foreign : IsForeign out.files) where
  abbrev with_layer : Descriptor → Modeler → Modeler
  with_layer desc m = record m { man = record m.man { layers = m.man.layers ++ (desc ∷ []) } }

  -- AddPack goes on with no error but that of the file store.
  pub add_pack-resolved :
      (path : Text) (refs : List Reference) (s : Session T F)
      → IsMade s.model.cfg
      → AllSupported out.git refs
      → IsTolerated (add_pack out path refs s).0
      → (layer : Text) × ((name : Text)
          → resolve_ref out.git name (add_pack out path refs s).1.model
            ≡ resolved out.git (last_named name refs) layer name s.model)
  unfolding add_pack joined within wrapping modify pure ◌>>=◌
  add_pack-resolved path refs s made supported going =
      elim (Result-cases (out.files.add (base_name path) media_type_pack_layer path s.files).0) [
        | inl (desc, added) ↦
            let m : Modeler = with_layer desc s.model in
            let (no_errors, found) =
              update_refs-resolved out.git refs desc.digest m
                (record { heads_made = made.heads_made; tags_made = made.tags_made })
                (has_layer-last desc s.model.man.layers) supported in
            let q : Modeler = (update_refs out.git refs desc.digest m).1 in
            (
              desc.digest,
              λ name.
                  rw (added, no_errors)
                    (resolve_ref-cfg out.git name
                        (record q { new_packs = q.new_packs ++ desc ∷ [] }) q refl
                      ∙ found name
                      ∙ resolved-cfg out.git (last_named name refs) desc.digest name m s.model
                          refl),
            )
        | inr (inl (e, failed)) ↦ absurd (
            both
              (going.unsupported (wrapf "adding packfile to intermediate file store: %w" [] e)
                (rw failed refl))
              (foreign.add_errors (base_name path) media_type_pack_layer path s.files e failed))
        | inr (inr (k, crashed)) ↦ absurd (going.no_crash k (rw crashed refl))
      ]
