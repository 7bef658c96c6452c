-- ===== src/Cmd/Push/Done.antt =====
-- What HandlePush has done when it returns without an error.
use mathlib.Core.Path.{subst}
use gnoci.Base.{◌≡◌, refl, sym, ap, ◌∙◌, inl, inr, Bool-cases, [], ◌∷◌, true, Text}
use gnoci.Outcome.{
  Result, ok, err, crash, is, unsupported_reference_type, Action, attempt, lift, wrapping, within,
  pure, ◌>>=◌, ◌>>◌,
}
use gnoci.Outcome.Keeps.{Keeps, Keeps-asks, Keeps-beside, Keeps-gets, Keeps-lift, Keeps-wrapping}
use gnoci.Outcome.Ensures.{Ensures, Ensures-bind, Ensures-then}
use gnoci.Outcome.Succeeds.{
  pairs, bind-succeeds, wrapping-succeeds, lift-succeeds, attempt-succeeds,
}
use gnoci.Plumbing.{Repository}
use gnoci.Oci.{Descriptor}
use gnoci.Model.{Modeler, resolve_ref}
use gnoci.Model.Refs.{IsMade}
use gnoci.Model.Packed.{AllSupported, last_named, resolved}
use gnoci.Model.Session.{Outside, Session, with_files, add_pack, push}
use gnoci.Model.Session.Added.{IsForeign, IsTolerated, add_pack-resolved, resolve_ref-cfg}
use gnoci.Model.Session.Pushed.{push-Keeps}
use gnoci.Model.Lfs.{update_lfs_referrer}
use gnoci.Model.Lfs.Updates.{update_lfs_referrer-Keeps}
use gnoci.Cmd.Compare.{Plan}
use gnoci.Cmd.Push.{Packer, push_refs, removing, tolerated}

module _ {T F : Type 0} (out : Outside T F) (packer : Packer F) (repo : Repository) where
  -- The published parts of the modeler are the same.
  abbrev pub SameParts : Session T F → Session T F → Type 0
  SameParts s t =
      (t.model.cfg ≡ s.model.cfg) × (t.model.man ≡ s.model.man) × (t.model.ref ≡ s.model.ref)

  pub push-SameParts : (s : Session T F) → SameParts s (push out (update_lfs_referrer out ∷ []) s).1
  push-SameParts s = kept.after s (refl, refl, refl)
    where
      kept : Keeps (SameParts s) (push out (update_lfs_referrer out ∷ []))
      kept =
          push-Keeps out (SameParts s)
            (record {
              pushed = λ t d raw h. h;
              bytes_pushed = λ t media raw h. h;
              packed = λ t media o h. h;
            })
            _
            (
              update_lfs_referrer-Keeps out (SameParts s) (record {
                lfs_man_desc = λ t d h. h;
                lfs_man = λ t m h. h;
                packed = λ t media o h. h;
                deleted = λ delete e t d listed h. h;
              }),
              tt,
            )
            (λ t u h. h)

  -- What the session has is what a call of Push has published.
  pub record IsPublished (t : Session T F) : Type 0 where
    pub before : Session T F
    pub after : Session T F
    pub desc : Descriptor
    pub pushed : push out (update_lfs_referrer out ∷ []) before ≡ (ok desc, after)
    pub cfg_is : before.model.cfg ≡ t.model.cfg
    pub man_is : before.model.man ≡ t.model.man
    pub ref_is : before.model.ref ≡ t.model.ref
    pub target_is : after.target ≡ t.target

  removing-succeeds :
      {A : Type 0} (tmp : Text) (m : Action (Session T F) A) (s t : Session T F) (a : A)
      → removing out packer repo tmp m s ≡ (ok a, t)
      → (u : Session T F) × (m s ≡ (ok a, u)) × (t.model ≡ u.model) × (t.target ≡ u.target)
  unfolding removing within
  removing-succeeds tmp m s t a h = (
    (m s).1,
    pairs (ap (λ x. x.0) h) refl,
    sym (ap (λ x. x.1.model) h),
    sym (ap (λ x. x.1.target) h),
  )

  pub Ensures-removing :
      {P Q : Session T F → Type 0} (tmp : Text) (m : Action (Session T F) (Unit {0}))
      → ((t u : Session T F) → t.model ≡ u.model → t.target ≡ u.target → Q u → Q t)
      → Ensures P Q m
      → Ensures P Q (removing out packer repo tmp m)
  Ensures-removing tmp m moves e = record {
    ensures = λ s t a p h.
        let (u, body, models, targets) = removing-succeeds tmp m s t a h in
        moves t u models targets (e.ensures s u a p body);
  }

  tolerated-IsTolerated :
      (r : Result Descriptor) → tolerated out packer repo r ≡ ok tt → IsTolerated r
  unfolding tolerated
  tolerated-IsTolerated (ok d) h = record { unsupported = λ e k. cc; no_crash = λ c k. cc }
  tolerated-IsTolerated (err e) h = elim (Bool-cases (is unsupported_reference_type e)) [
    | inl u ↦ record {
      unsupported = λ x k.
          let same : e ≡ x = cc in subst (λ y. is unsupported_reference_type y ≡ true) same u;
      no_crash = λ c k. cc;
    }
    | inr n ↦ let k = rw n at h in cc
  ]
  tolerated-IsTolerated (crash k) h = cc

  -- A call on the file store leaves the modeler.
  files-Keeps :
      {A : Type 0} (m : Modeler) (act : Action F A)
      → Keeps (λ s. s.model ≡ m) (with_files {T = T} act)
  files-Keeps m act = Keeps-beside _ _ _ act (λ s q h. h)

  -- Whatever has been left for the packfile resolves in the second modeler, in one layer, and every
  -- other name as in the first.
  abbrev pub Resolved : Plan → Modeler → Modeler → Type 0
  Resolved plan m n =
      (layer : Text) × ((name : Text)
        → resolve_ref out.git name n
          ≡ resolved out.git (last_named name plan.refs_in_new_pack) layer name m)

  -- The end of the body, where the path of the packfile is known
  abbrev add_and_push : Plan → Text → Action (Session T F) (Unit {0})
  add_and_push plan path = do
    added ← attempt (add_pack out path plan.refs_in_new_pack)
    lift (tolerated out packer repo added)
    wrapping "pushing to remote: %w" [] (push out (update_lfs_referrer out ∷ []))
    pure tt

  module _ (plan : Plan) (foreign : IsForeign out.files)
      (supported : AllSupported out.git plan.refs_in_new_pack) where
    added-Resolved :
        (path : Text) (s t u : Session T F) (added : Result Descriptor)
        → IsMade s.model.cfg
        → add_pack out path plan.refs_in_new_pack s ≡ (added, t)
        → IsTolerated added
        → u.model.cfg ≡ t.model.cfg
        → Resolved plan s.model u.model
    added-Resolved path s t u added made adding going same =
        let (layer, found) =
          add_pack-resolved out foreign path plan.refs_in_new_pack s made supported
            (subst IsTolerated (sym (ap (λ x. x.0) adding)) going) in
        let cfgs : u.model.cfg ≡ (add_pack out path plan.refs_in_new_pack s).1.model.cfg =
          same ∙ sym (ap (λ x. x.1.model.cfg) adding) in
        (layer, λ name. resolve_ref-cfg out.git name u.model _ cfgs ∙ found name)

    add_and_push-Resolved :
        (path : Text) (s u : Session T F)
        → IsMade s.model.cfg
        → add_and_push plan path s ≡ (ok tt, u)
        → Resolved plan s.model u.model × IsPublished u
    unfolding pure
    add_and_push-Resolved path s u made h =
        let (added, (s1, (e1, h1))) = bind-succeeds _ _ s u tt h in
        let (adding, _) = attempt-succeeds _ s s1 added e1 in
        let (x2, (s2, (e2, h2))) = bind-succeeds _ _ s1 u tt h1 in
        let (going, at2) = lift-succeeds _ s1 s2 x2 e2 in
        let (desc, (s3, (e3, h3))) = bind-succeeds _ _ s2 u tt h2 in
        let pushing = wrapping-succeeds _ _ _ s2 s3 desc e3 in
        let last : u ≡ s3 = sym (ap (λ x. x.1) h3) in
        let parts = subst (SameParts s2) (ap (λ x. x.1) pushing ∙ sym last) (push-SameParts s2) in
        (
          added-Resolved path s s1 u added made adding (tolerated-IsTolerated added going)
              (parts.0 ∙ ap (λ q. q.model.cfg) at2),
          record {
            before = s2;
            after = s3;
            desc = desc;
            pushed = pushing;
            cfg_is = sym parts.0;
            man_is = sym parts.1;
            ref_is = sym parts.2;
            target_is = ap (λ q. q.target) (sym last);
          },
        )

    IsPublished-moved :
        (t u : Session T F)
        → t.model ≡ u.model
        → t.target ≡ u.target
        → IsPublished u
        → IsPublished t
    IsPublished-moved t u models targets p = record {
      before = p.before;
      after = p.after;
      desc = p.desc;
      pushed = p.pushed;
      cfg_is = p.cfg_is ∙ ap (λ m. m.cfg) (sym models);
      man_is = p.man_is ∙ ap (λ m. m.man) (sym models);
      ref_is = p.ref_is ∙ ap (λ m. m.ref) (sym models);
      target_is = p.target_is ∙ sym targets;
    }

    -- The body of HandlePush, from a modeler whose config has both maps
    pub push_refs-Resolved :
        (m : Modeler)
        → IsMade m.cfg
        → Ensures
            (λ s. s.model ≡ m)
            (λ t. Resolved plan m t.model × IsPublished t)
            (push_refs out packer repo plan)
    unfolding push_refs
    push_refs-Resolved m made = Ensures-bind _ _ (Keeps-asks _) λ objs.
        Ensures-bind _ _ (Keeps-wrapping _ _ _ (files-Keeps m _)) λ tmp.
          Ensures-removing tmp _
            (λ t u models targets q.
              (subst (Resolved plan m) (sym models) q.0, IsPublished-moved t u models targets q.1))
            (Ensures-then _ _ (Keeps-wrapping _ _ _ (files-Keeps m _)) (
              Ensures-bind _ _ (Keeps-gets _) λ thin.
                Ensures-bind _ _ (Keeps-wrapping _ _ _ (files-Keeps m _)) λ pack_hash.
                  Ensures-bind _ _ (Keeps-lift _) λ path. record {
                    ensures = λ s u a same h.
                        subst (λ n. Resolved plan n u.model × IsPublished u) same
                          (add_and_push-Resolved path s u
                            (subst (λ n. IsMade n.cfg) (sym same) made) h);
                  }))
