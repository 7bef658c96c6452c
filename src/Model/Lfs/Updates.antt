-- ===== src/Model/Lfs/Updates.antt =====
-- What UpdateLFSReferrer leaves alone: all but the LFS fields of the modeler and the registry.
use mathlib.Core.Path.{subst}
use gnoci.Base.{
  List, ◌∷◌, In, inl, sym, ap, ◌∙◌, [], ◌≡◌, ◌≢◌, refl, Option, none, some, Text, text_eq, ◌==◌,
}
use gnoci.Outcome.Succeeds.{
  pairs, ok-injective, bind-succeeds, attempt-succeeds, lift-succeeds, asks-succeeds,
  wrapping-succeeds,
}
use gnoci.Outcome.{
  Error, wrapping, attempt, gets, lift, modify, continue, caught, wrap-eq-ok, ◌>>=◌, Action, Result,
  ok, err, crash, within, pure,
}
use gnoci.Outcome.Keeps.{
  Keeps, Keeps-attempt, Keeps-bind, Keeps-then, Keeps-lift, Keeps-pure, Keeps-if, Keeps-wrapping,
  Keeps-gets, Keeps-asks, Keeps-modify,
}
use gnoci.Oci.{Descriptor, Manifest, PackOptions}
use gnoci.Model.Session.{with_target, with_model, descriptor_or_empty, Outside, Session}
use gnoci.Model.Lfs.{
  choose_referrer, referrer, deleted, fetch_lfs, push_lfs_manifest, delete_old, push_found,
  update_lfs_referrer,
}

-- What some list of referrers names, at some time
abbrev pub IsReferrer : {T F : Type 0} → Outside T F → Descriptor → Type 0
IsReferrer {T = T} out e =
    (t : T) × (subject : Descriptor) × In e (out.target.referrers t subject).0

-- No list of referrers, at any time, names this content.
abbrev pub Unreferring : {T F : Type 0} → Outside T F → Descriptor → Type 0
Unreferring out d = (e : Descriptor) → IsReferrer out e → e.digest ≢ d.digest

-- A predicate on sessions that does not look at what the update writes
pub record Ignores {T F : Type 0} (out : Outside T F) (P : Session T F → Type 0) : Type 0 where
  pub lfs_man_desc :
      (s : Session T F) (d : Descriptor)
      → P s
      → P (record s { model = record s.model { lfs_man_desc = d } })
  pub lfs_man :
      (s : Session T F) (m : Manifest)
      → P s
      → P (record s { model = record s.model { lfs_man = m } })
  pub packed :
      (s : Session T F) (media : Text) (o : PackOptions)
      → P s
      → P (record s { target = (out.target.pack_manifest media o s.target).1 })
  pub deleted :
      (delete : Descriptor → Action T (Unit {0}))
      → out.target.delete ≡ some delete
      → (s : Session T F) (d : Descriptor) → IsReferrer out d
      → P s
      → P (record s { target = (delete d s.target).1 })

module _ {T F : Type 0} (out : Outside T F) (P : Session T F → Type 0) (safe : Ignores out P) where
  fetch_lfs-Keeps : Keeps P (fetch_lfs out)
  unfolding fetch_lfs within
  fetch_lfs-Keeps = Keeps-bind _ _ (Keeps-attempt _ (Keeps-asks _)) λ found.
      Keeps-then _ _ (Keeps-modify _ (λ s h. safe.lfs_man_desc s _ h)) (
        Keeps-bind _ _ (Keeps-lift _) λ desc.
          Keeps-bind _ _ (Keeps-wrapping _ _ _ (Keeps-asks _)) λ raw.
            Keeps-then _ _ (Keeps-wrapping _ _ _ (record { after = λ s h. safe.lfs_man s _ h }))
              (Keeps-pure desc))

  chosen-IsReferrer :
      (listed : List Descriptor × Option Error) (d : Descriptor)
      → choose_referrer listed ≡ ok d
      → In d listed.0
  unfolding choose_referrer
  chosen-IsReferrer ([], e) d h = cc
  chosen-IsReferrer (a ∷ [], none) d h = inl (sym (ok-injective h))
  chosen-IsReferrer (a ∷ [], some e) d h = cc
  chosen-IsReferrer (a ∷ b ∷ rest, e) d h = cc

  decoding-Keeps :
      (raw : Text) (l : Descriptor)
      → Keeps
          (λ (q : Session T F). q.model.lfs_man_desc ≡ l)
          (wrapping "decoding LFS manifest: %w" [] (
            with_model (
              within
                (λ m. m.lfs_man)
                (λ m x. record m { lfs_man = x })
                (out.codec.unmarshal_manifest raw))))
  unfolding within
  decoding-Keeps raw l = Keeps-wrapping _ _ _ (record { after = λ s h. h })

  -- FetchLFS leaves the descriptor that it returns, which is a referrer.
  fetch_lfs-found :
      (s u : Session T F) (d : Descriptor)
      → fetch_lfs out s ≡ (ok d, u)
      → IsReferrer out d × (u.model.lfs_man_desc ≡ d)
  unfolding fetch_lfs referrer modify pure
  fetch_lfs-found s u d h =
      let (found, (s1, (e1, h1))) = bind-succeeds _ _ s u d h in
      let (asked, _) = attempt-succeeds _ s s1 found e1 in
      let (x2, (s2, (e2, h2))) = bind-succeeds _ _ s1 u d h1 in
      let (desc, (s3, (e3, h3))) = bind-succeeds _ _ s2 u d h2 in
      let (wrapped, at3) = lift-succeeds _ s2 s3 desc e3 in
      let found_is : found ≡ ok desc = wrap-eq-ok _ _ found wrapped in
      let (raw, (s4, (e4, h4))) = bind-succeeds _ _ s3 u d h3 in
      let (_, at4) = asks-succeeds _ s3 s4 raw (wrapping-succeeds _ _ _ s3 s4 raw e4) in
      let (x5, (s5, (e5, h5))) = bind-succeeds _ _ s4 u d h4 in
      let at5 =
        subst (λ q. q.model.lfs_man_desc ≡ s4.model.lfs_man_desc) (ap (λ x. x.1) e5)
          ((decoding-Keeps raw s4.model.lfs_man_desc).after s4 refl) in
      let desc_is : desc ≡ d = ok-injective (ap (λ x. x.0) h5) in
      let (same, _) =
        asks-succeeds (referrer out) s s1 desc
          (pairs (ap (λ x. x.0) asked ∙ found_is) (ap (λ x. x.1) asked)) in
      (
        (
          s.target,
          s.model.man_desc,
          subst (λ e. In e (out.target.referrers s.target s.model.man_desc).0) desc_is
              (chosen-IsReferrer _ desc same),
        ),
        ap (λ x. x.1.model.lfs_man_desc) (sym h5)
            ∙ (at5
                ∙ (ap (λ q. q.model.lfs_man_desc) at4
                    ∙ (ap (λ q. q.model.lfs_man_desc) at3
                        ∙ (ap (λ x. x.1.model.lfs_man_desc) (sym e2)
                            ∙ (ap descriptor_or_empty found_is ∙ desc_is))))),
      )

  module _ (old : Descriptor) (listed : IsReferrer out old) where
    -- The predicate, where the old LFS manifest is this one
    abbrev With : Session T F → Type 0
    With s = P s × (s.model.lfs_man_desc ≡ old)

    -- delete_old with the descriptor at hand
    abbrev deleting :
        (Descriptor → Action T (Unit {0})) → Descriptor → Action (Session T F) (Unit {0})
    deleting delete d = do gone ← attempt (with_target (delete d)); lift (deleted out gone)

    delete_old-Keeps :
        (delete : Option (Descriptor → Action T (Unit {0})))
        → out.target.delete ≡ delete
        → Keeps With (delete_old out delete)
    unfolding delete_old within gets ◌>>=◌
    delete_old-Keeps none e = Keeps-pure tt
    delete_old-Keeps (some delete) e = record {
      after = λ s h. subst (λ d. With (deleting delete d s).1) (sym h.1) (known.after s h);
    }
      where
        known : Keeps With (deleting delete old)
        known =
            Keeps-bind _ _
              (Keeps-attempt (with_target (delete old))
                (record { after = λ s h. (safe.deleted delete e s old listed h.0, h.1) }))
              λ gone. Keeps-lift (deleted out gone)

    push_lfs_manifest-Keeps : (subject : Descriptor) → Keeps With (push_lfs_manifest out subject)
    unfolding push_lfs_manifest within
    push_lfs_manifest-Keeps subject =
        Keeps-then _ _
          (Keeps-if (subject.digest == []) (pure tt) (delete_old out out.target.delete)
            (λ e. Keeps-pure tt) (λ e. delete_old-Keeps out.target.delete refl))
          (Keeps-bind _ _ (Keeps-gets _)
            λ layers. Keeps-wrapping _ _ _ (record { after = λ s h. (safe.packed s _ _ h.0, h.1) }))

    push_found-Keeps : (d subject : Descriptor) → Keeps With (push_found out (ok d) subject)
    unfolding push_found
    push_found-Keeps d subject =
        Keeps-then _ _ (Keeps-wrapping _ _ _ (push_lfs_manifest-Keeps subject)) (Keeps-pure tt)

  pub update_lfs_referrer-Keeps : (subject : Descriptor) → Keeps P (update_lfs_referrer out subject)
  unfolding update_lfs_referrer push_found attempt lift ◌>>=◌
  update_lfs_referrer-Keeps subject = record {
    after = λ s h. known s h (fetch_lfs out s).0 (fetch_lfs out s).1 refl;
  }
    where
      known :
          (s : Session T F)
          → P s
          → (r : Result Descriptor) (u : Session T F) → fetch_lfs out s ≡ (r, u)
          → P (continue (caught r) (λ found. push_found out found subject) u).1
      known s h (ok d) u e =
          let (listed, is) = fetch_lfs-found s u d e in
          ((push_found-Keeps d listed d subject).after u
            (subst P (ap (λ x. x.1) e) (fetch_lfs-Keeps.after s h), is)).0
      known s h (err x) u e = subst P (ap (λ x. x.1) e) (fetch_lfs-Keeps.after s h)
      known s h (crash k) u e = subst P (ap (λ x. x.1) e) (fetch_lfs-Keeps.after s h)
