-- ===== src/Cmd/Push/Stored.antt =====
-- No layer is missing in the registry after HandlePush.
use mathlib.Core.Path.{subst}
use gnoci.Base.{◌≡◌, refl, sym, ap, ◌∙◌, inl, inr, List, [], ◌∷◌, In, Text}
use gnoci.Outcome.{Action, ok, attempt, lift, wrapping, pure, ◌>>=◌, ◌>>◌}
use gnoci.Outcome.Keeps.{Keeps, Keeps-lift, Keeps-wrapping, Keeps-gets, Keeps-asks}
use gnoci.Outcome.Ensures.{Ensures, Ensures-bind, Ensures-then}
use gnoci.Outcome.Succeeds.{bind-succeeds, attempt-succeeds, wrapping-succeeds, within-succeeds}
use gnoci.Oci.{Descriptor}
use gnoci.Plumbing.{Repository}
use gnoci.Protocol.Push.{PushRequest}
use gnoci.Model.Packs.{HasPacks, update_ref-HasPacks, delete_ref-HasPacks}
use gnoci.Model.Session.{Outside, Session, add_pack, push}
use gnoci.Model.Session.Stored.{IsBlobStore, push-Stored}
use gnoci.Model.Lfs.Updates.{Unreferring}
use gnoci.Model.Lfs.{update_lfs_referrer}
use gnoci.Cmd.Compare.{Plan, compare_refs}
use gnoci.Cmd.Compare.Kept.{compare_refs-kept}
use gnoci.Cmd.Push.{Packer, Link, plan_push, push_refs, tolerated, handle_push}
use gnoci.Cmd.Push.Done.{push-SameParts, Ensures-removing}
use gnoci.Model.Session.Backed.{Backed, NoneMissing, Backed-HasPacks, files-Backed, add_pack-Backed}

module _ {T F : Type 0} (out : Outside T F) (packer : Packer F) (repo : Repository)
    (store : IsBlobStore out) where
  plan_push-Backed : (reqs : List PushRequest) → Keeps (Backed out) (plan_push out packer repo reqs)
  unfolding plan_push
  plan_push-Backed reqs = record {
    after = λ s h.
        Backed-HasPacks out s (compare_refs out.git repo reqs s.model).1.comparer.remote
          (compare_refs-kept out.git repo (HasPacks s.model.man.layers s.model.new_packs)
            (delete_ref-HasPacks out.git s.model.man.layers s.model.new_packs)
            (update_ref-HasPacks out.git s.model.man.layers s.model.new_packs) reqs s.model
            (refl, refl))
          h;
  }

  push-NoneMissing :
      Ensures (Backed out) (NoneMissing out) (push out (update_lfs_referrer out ∷ []))
  push-NoneMissing = record {
    ensures = λ s t a h pushed.
        let (new, older) = push-Stored out store s t a pushed in
        let (cfg, man, ref) = push-SameParts out packer repo s in
        let same : t.model.man ≡ s.model.man = ap (λ x. x.1.model.man) (sym pushed) ∙ man in
        λ d i apart. elim (h d (subst (λ m. In d m.layers) same i)) [
          | inl n ↦ let (raw, found, there) = new d n apart in (raw, there)
          | inr (raw, there) ↦ (raw, older d raw apart there)
        ];
  }

  -- The end of the body of HandlePush
  abbrev add_and_push : Plan → Text → Action (Session T F) (Unit {0})
  add_and_push plan path = do
    added ← attempt (add_pack out path plan.refs_in_new_pack)
    lift (tolerated out packer repo added)
    wrapping "pushing to remote: %w" [] (push out (update_lfs_referrer out ∷ []))
    pure tt

  add_and_push-NoneMissing :
      (plan : Plan) (path : Text) → Ensures (Backed out) (NoneMissing out) (add_and_push plan path)
  unfolding pure
  add_and_push-NoneMissing plan path = record {
    ensures = λ s u a h done.
        let (added, (s1, (e1, h1))) = bind-succeeds _ _ s u a done in
        let (adding, alive) = attempt-succeeds _ s s1 added e1 in
        let backed = add_pack-Backed out path plan.refs_in_new_pack s s1 added h adding alive in
        let (x2, (s2, (e2, h2))) = bind-succeeds _ _ s1 u a h1 in
        let (desc, (s3, (e3, h3))) = bind-succeeds _ _ s2 u a h2 in
        subst (NoneMissing out) (ap (λ x. x.1) h3) (
          push-NoneMissing.ensures s2 s3 desc
            (subst (Backed out) (ap (λ x. x.1) e2)
              ((Keeps-lift {Inv = Backed out} (tolerated out packer repo added)).after s1 backed))
            (wrapping-succeeds _ _ _ s2 s3 desc e3));
  }

  NoneMissing-moved :
      (t u : Session T F)
      → t.model ≡ u.model
      → t.target ≡ u.target
      → NoneMissing out u
      → NoneMissing out t
  NoneMissing-moved t u models targets none_missing d i apart =
      let (raw, there) = none_missing d (subst (λ m. In d m.man.layers) models i) apart in
      (raw, ap (λ q. out.target.fetch q d) targets ∙ there)

  push_refs-NoneMissing :
      (plan : Plan) → Ensures (Backed out) (NoneMissing out) (push_refs out packer repo plan)
  unfolding push_refs
  push_refs-NoneMissing plan = Ensures-bind _ _ (Keeps-asks _) λ objs.
      Ensures-bind _ _ (Keeps-wrapping _ _ _ (files-Backed out _)) λ tmp.
        Ensures-removing out packer repo tmp _ NoneMissing-moved (
          Ensures-then _ _ (Keeps-wrapping _ _ _ (files-Backed out _)) (
            Ensures-bind _ _ (Keeps-gets _) λ thin.
              Ensures-bind _ _ (Keeps-wrapping _ _ _ (files-Backed out _)) λ pack_hash.
                Ensures-bind _ _ (Keeps-lift _) λ path. add_and_push-NoneMissing plan path))

  -- No layer is missing after a push: in a registry that keeps what it has taken until its digest is
  -- deleted, if every layer of the manifest is in the registry or is a new packfile, and HandlePush
  -- succeeds, then every layer of the manifest that it has pushed, and that no list of referrers ever
  -- names, can be read from the registry: deleting the old LFS manifest takes none of them away.
  pub handle_push-NoneMissing :
      (l l' : Link T F)
      → Backed out l.session
      → handle_push out packer repo l ≡ (ok tt, l')
      → (d : Descriptor) → In d l'.session.model.man.layers
      → Unreferring out d
      → (raw : Text) × (out.target.fetch l'.session.target d ≡ ok raw)
  unfolding handle_push
  handle_push-NoneMissing l l' h done =
      let (reqs, (l1, (e1, h1))) = bind-succeeds _ _ l l' tt done in
      let (received, at1) =
        within-succeeds _ _ _ l l1 reqs (wrapping-succeeds _ _ _ l l1 reqs e1) in
      let (plan, (l2, (planned, h2))) = bind-succeeds _ _ l1 l' tt h1 in
      let (x3, (l3, (pushed, h3))) = bind-succeeds _ _ l2 l' tt h2 in
      let (plan_made, at2) = within-succeeds _ _ _ l1 l2 plan planned in
      let (body_done, at3) = within-succeeds _ _ _ l2 l3 x3 pushed in
      let (written, at4) = within-succeeds _ _ _ l3 l' tt (wrapping-succeeds _ _ _ l3 l' tt h3) in
      let backed1 = subst (λ k. Backed out k.session) (sym at1) h in
      let backed2 =
        subst (λ k. Backed out k.session) (sym at2)
          ((plan_push-Backed reqs).after l1.session backed1) in
      subst (λ k. NoneMissing out k.session) (sym at4)
        (subst (λ k. NoneMissing out k.session) (sym at3)
          ((push_refs-NoneMissing plan).ensures l2.session _ x3 backed2 body_done))
