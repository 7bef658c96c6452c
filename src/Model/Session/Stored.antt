-- ===== src/Model/Session/Stored.antt =====
-- The packfiles in the registry after Push.
use mathlib.Core.Path.{subst}
use gnoci.Base.{◌≡◌, refl, sym, ap, ◌∙◌, ◌≢◌, inl, inr, List, [], ◌∷◌, In, some, Text, Option, none}
use gnoci.Outcome.{
  Action, Error, Result, Crash, ok, err, crash, pure, join_all, join, lift, wrap, within,
  wrap-eq-ok, ◌>>=◌, ◌>>◌,
}
use gnoci.Outcome.Keeps.{
  Keeps, Keeps-bind, Keeps-then, Keeps-lift, Keeps-gets, Keeps-wrapping, Keeps-pure,
}
use gnoci.Outcome.Succeeds.{
  bind-succeeds, ok-injective, wrapping-succeeds, lift-succeeds, gets-succeeds, within-succeeds,
  asks-succeeds, attempt-succeeds,
}
use gnoci.Oci.{Descriptor, PackOptions}
use gnoci.Model.Session.{
  Outside, Session, push, push_pack, push_packs, push_metadata, run_updates, tag_manifest,
  unless_errors,
}
use gnoci.Model.{errors_of}
use gnoci.Model.Session.Pushed.{Unmoved, push_packs-Keeps, run_updates-Keeps, push_metadata-Keeps}
use gnoci.Model.Lfs.{update_lfs_referrer}
use gnoci.Model.Lfs.Updates.{Unreferring, update_lfs_referrer-Keeps}

-- A registry that keeps what it has taken until its digest is deleted
pub record IsBlobStore {T F : Type 0} (out : Outside T F) : Type 0 where
  pub pushed_there :
      (d : Descriptor) (raw : Text) (t u : T)
      → out.target.push d raw t ≡ (ok tt, u)
      → out.target.fetch u d ≡ ok raw
  pub push_keeps :
      (e : Descriptor) (content : Text) (d : Descriptor) (raw : Text) (t : T)
      → out.target.fetch t d ≡ ok raw
      → out.target.fetch (out.target.push e content t).1 d ≡ ok raw
  pub bytes_keep :
      (media content : Text) (d : Descriptor) (raw : Text) (t : T)
      → out.target.fetch t d ≡ ok raw
      → out.target.fetch (out.target.push_bytes media content t).1 d ≡ ok raw
  pub pack_keeps :
      (media : Text) (o : PackOptions) (d : Descriptor) (raw : Text) (t : T)
      → out.target.fetch t d ≡ ok raw
      → out.target.fetch (out.target.pack_manifest media o t).1 d ≡ ok raw
  pub tag_keeps :
      (e : Descriptor) (ref : Text) (d : Descriptor) (raw : Text) (t : T)
      → out.target.fetch t d ≡ ok raw
      → out.target.fetch (out.target.tag e ref t).1 d ≡ ok raw
  pub delete_keeps :
      (delete : Descriptor → Action T (Unit {0}))
      → out.target.delete ≡ some delete
      → (e d : Descriptor) (raw : Text) (t : T) → e.digest ≢ d.digest
      → out.target.fetch t d ≡ ok raw
      → out.target.fetch (delete e t).1 d ≡ ok raw

module _ {T F : Type 0} (out : Outside T F) (store : IsBlobStore out) where
  -- The content under a descriptor
  abbrev pub There : Descriptor → Text → Session T F → Type 0
  There d raw s = out.target.fetch s.target d ≡ ok raw

  There-Unmoved : (d : Descriptor) (raw : Text) → Unmoved out (There d raw)
  There-Unmoved d raw = record {
    pushed = λ s e content h. store.push_keeps e content d raw s.target h;
    bytes_pushed = λ s media content h. store.bytes_keep media content d raw s.target h;
    packed = λ s media o h. store.pack_keeps media o d raw s.target h;
  }

  update-There :
      (d : Descriptor) (raw : Text)
      → Unreferring out d
      → (e : Descriptor) → Keeps (There d raw) (update_lfs_referrer out e)
  update-There d raw apart e =
      update_lfs_referrer-Keeps out (There d raw)
        (record {
          lfs_man_desc = λ s x h. h;
          lfs_man = λ s m h. h;
          packed = λ s media o h. store.pack_keeps media o d raw s.target h;
          deleted = λ delete has s x listed h.
              store.delete_keeps delete has x d raw s.target (apart x listed) h;
        })
        e

  push_pack-There :
      (d : Descriptor) (s t : Session T F)
      → push_pack out d s ≡ (ok tt, t)
      → (raw : Text) × (out.files.fetch s.files d ≡ ok raw) × There d raw t × (t.files ≡ s.files)
  unfolding push_pack
  push_pack-There d s t h =
      let (raw, (s1, (e1, h1))) = bind-succeeds _ _ s t tt h in
      let (found, at1) = asks-succeeds _ s s1 raw (wrapping-succeeds _ _ _ s s1 raw e1) in
      let (pushed, at2) = within-succeeds _ _ _ s1 t tt (wrapping-succeeds _ _ _ s1 t tt h1) in
      (
        raw,
        found,
        ap (λ q. out.target.fetch q.target d) at2 ∙ store.pushed_there d raw s1.target _ pushed,
        ap (λ q. q.files) at2 ∙ ap (λ q. q.files) at1,
      )

  fine :
      (r : Result (Unit {0})) (errs : List Error)
      → ((k : Crash) → r ≢ crash k)
      → errors_of r errs ≡ []
      → (r ≡ ok tt) × (errs ≡ [])
  fine (ok tt) errs alive h = (refl, h)
  fine (err e) errs alive h = cc
  fine (crash k) errs alive h = absurd (alive k refl)

  joined :
      (e : Error) (rest : Option Error)
      → ¬ (unless_errors (elim rest [ none ↦ some e | some r ↦ some (join e r) ]) ≡ ok tt)
  joined e none h = cc
  joined e (some r) h = cc

  unless_errors-none : (errs : List Error) → unless_errors (join_all errs) ≡ ok tt → errs ≡ []
  unless_errors-none [] h = refl
  unless_errors-none (e ∷ errs) h = absurd (joined e (join_all errs) h)

  -- Packfiles whose uploads give no errors
  packs-There :
      (descs : List Descriptor) (s t : Session T F)
      → push_packs out descs s ≡ (ok [], t)
      → (d : Descriptor) → In d descs
      → (raw : Text) × (out.files.fetch s.files d ≡ ok raw) × There d raw t
  unfolding push_packs pure
  packs-There [] s t h d i = elim i [ ]
  packs-There (desc ∷ descs) s t h d i =
      let (r, (s1, (e1, h1))) = bind-succeeds _ _ s t [] h in
      let (pushed, no_crash) = attempt-succeeds _ s s1 r e1 in
      let (errs, (s2, (e2, h2))) = bind-succeeds _ _ s1 t [] h1 in
      let (r_is, errs_is) = fine r errs no_crash (ok-injective (ap (λ x. x.0) h2)) in
      let (raw, found, there, files_are) =
        push_pack-There desc s s1 (subst (λ x. push_pack out desc s ≡ (x, s1)) r_is pushed) in
      let later : push_packs out descs s1 ≡ (ok [], t) =
        subst (λ q. push_packs out descs s1 ≡ (ok [], q)) (ap (λ x. x.1) h2)
          (subst (λ es. push_packs out descs s1 ≡ (ok es, s2)) errs_is e2) in
      elim i [
        | inl here ↦
            let kept = subst (There desc raw) (ap (λ x. x.1) later) (
              (push_packs-Keeps out (There desc raw) (There-Unmoved desc raw) descs).after s1
                there) in
            (
              raw,
              ap (λ x. out.files.fetch s.files x) here ∙ found,
              ap (λ x. out.target.fetch t.target x) here ∙ kept,
            )
        | inr further ↦
            let (raw2, found2, there2) = packs-There descs s1 t later d further in
            (raw2, ap (λ f. out.files.fetch f d) (sym files_are) ∙ found2, there2)
      ]

  -- What Push does once the packfiles are there
  abbrev publish :
      List (Descriptor → Action (Session T F) (Unit {0})) → Action (Session T F) Descriptor
  publish updates = do
    man_desc ← push_metadata out
    update_errs ← run_updates out updates man_desc
    lift (wrap "referrer updates failed: %w" [] (unless_errors (join_all update_errs)))
    tag_manifest out man_desc
    pure man_desc

  publish-There :
      (d : Descriptor) (raw : Text)
      → Unreferring out d
      → Keeps (There d raw) (publish (update_lfs_referrer out ∷ []))
  unfolding tag_manifest within
  publish-There d raw apart =
      Keeps-bind _ _ (push_metadata-Keeps out (There d raw) (There-Unmoved d raw)) λ desc.
        Keeps-bind _ _
          (run_updates-Keeps out (There d raw) (There-Unmoved d raw) (update_lfs_referrer out ∷ [])
            desc (update-There d raw apart, tt))
          λ errs. Keeps-then _ _ (Keeps-lift _) (
            Keeps-then _ _
              (Keeps-bind _ _ (Keeps-gets _) λ ref.
                Keeps-wrapping _ _ _
                  (record { after = λ s h. store.tag_keeps desc ref d raw s.target h }))
              (Keeps-pure desc))

  -- No packfile is missing: in a registry that keeps what it has taken until its digest is deleted,
  -- if Push with the update of the LFS referrer succeeds, then every new packfile that no list of
  -- referrers ever names can be read from the registry, with its content in the file store, and
  -- whatever else could be read before and is not so named can still be read, with the same content:
  -- Push deletes at most a referrer.
  pub push-Stored :
      (s u : Session T F) (man_desc : Descriptor)
      → push out (update_lfs_referrer out ∷ []) s ≡ (ok man_desc, u)
      → ((d : Descriptor)
          → In d s.model.new_packs
          → Unreferring out d
          → (raw : Text) × (out.files.fetch s.files d ≡ ok raw)
            × (out.target.fetch u.target d ≡ ok raw))
        × ((d : Descriptor) (raw : Text)
            → Unreferring out d
            → out.target.fetch s.target d ≡ ok raw
            → out.target.fetch u.target d ≡ ok raw)
  unfolding push pure
  push-Stored s u man_desc h =
      let (packs, (s0, (got, h0))) = bind-succeeds _ _ s u man_desc h in
      let (packs_are, at0) = gets-succeeds _ s s0 packs got in
      let (errs, (s1, (e1, h1))) = bind-succeeds _ _ s0 u man_desc h0 in
      let (x1, (s2, (e2, h2))) = bind-succeeds _ _ s1 u man_desc h1 in
      let (no_errs, at2) = lift-succeeds _ s1 s2 x1 e2 in
      let errs_are = unless_errors-none errs (wrap-eq-ok _ _ _ no_errs) in
      let uploads : push_packs out s.model.new_packs s ≡ (ok [], s2) =
        (λ i. push_packs out (sym packs_are i) (sym at0 i))
        ∙ (e1 ∙ (λ i. (ok (errs_are i), sym at2 i))) in
      let published : publish (update_lfs_referrer out ∷ []) s2 ≡ (ok man_desc, u) = h2 in
      let later =
        λ (d : Descriptor) (raw : Text) (apart : Unreferring out d) (there : There d raw s2).
          subst (There d raw) (ap (λ x. x.1) published)
            ((publish-There d raw apart).after s2 there) in
      (
        λ d i apart.
            let (raw, found, there) = packs-There s.model.new_packs s s2 uploads d i in
            (raw, found, later d raw apart there),
        λ d raw apart there. later d raw apart (
            subst (There d raw) (ap (λ x. x.1) uploads) (
              (push_packs-Keeps out (There d raw) (There-Unmoved d raw) s.model.new_packs).after s
                there)),
      )
