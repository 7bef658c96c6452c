-- ===== src/Cmd/Push/Pushed.antt =====
-- What HandlePush answers, and what it has done.
use mathlib.Core.Path.{subst}
use gnoci.Base.{◌≡◌, refl, sym, ap, ◌∙◌, List, [], ◌∷◌, none, Text}
use gnoci.Outcome.{ok, err, sentinel, wrapf, reference_not_found, bind-eq-ok}
use gnoci.Outcome.Succeeds.{pairs, ok-injective, bind-succeeds, wrapping-succeeds, within-succeeds}
use gnoci.Plumbing.{Reference, Repository}
use gnoci.Protocol.Push.{PushRequest, PushResponse}
use gnoci.Comms.{receive_push_batch, write_push_response}
use gnoci.Model.{Modeler, resolve_ref}
use gnoci.Model.Refs.{IsMade}
use gnoci.Model.Packed.{AllSupported}
use gnoci.Model.Session.{Outside, Session}
use gnoci.Model.Session.Added.{IsForeign}
use gnoci.Cmd.Compare.{Plan, compare_refs}
use gnoci.Cmd.Compare.Settled
use gnoci.Cmd.Compare.Settled.{IsDone, deferred, updated}
use gnoci.Cmd.Compare.Done
use gnoci.Cmd.Compare.Done.{Distinct, AllDone, compare_refs-AllDone}
use gnoci.Cmd.Push.{Packer, Link, plan_push, push_refs, handle_push}
use gnoci.Cmd.Push.Done.{Resolved, IsPublished, push_refs-Resolved}

module _ {T F : Type 0} (out : Outside T F) (packer : Packer F) (repo : Repository) where
  -- What a request asks for holds in the modeler: the reference is gone, or it resolves to the commit
  -- of the local reference, as go-git reads back the text of its hash.
  pub data IsPushed (req : PushRequest) (m : Modeler) : Type 0 where
    deleted :
        req.src ≡ []
        → resolve_ref out.git req.remote m
          ≡ err (wrapf "%w: %s" (req.remote ∷ []) (sentinel reference_not_found))
        → IsPushed req m
    pointed :
        {l : Reference} {layer : Text}
        → repo.reference req.src ≡ ok l
        → resolve_ref out.git req.remote m
          ≡ ok (
            record { name = req.remote; hash = out.git.new_hash (out.git.hash_string l.hash) },
            layer,
          )
        → IsPushed req m

  -- The responses answer the requests in order, and what is answered without an error holds.
  pub data AllPushed (m : Modeler) : List PushRequest → List PushResponse → Type 0 where
    none_left : AllPushed m [] []
    one_more :
        {req : PushRequest} {reqs : List PushRequest} {resp : PushResponse}
        {resps : List PushResponse}
        → resp.remote ≡ req.remote
        → (resp.error ≡ none → IsPushed req m)
        → AllPushed m reqs resps
        → AllPushed m (req ∷ reqs) (resp ∷ resps)

  module _ (plan : Plan) (m : Modeler)
      (left : Resolved out packer repo plan plan.comparer.remote m) where
    IsDone-IsPushed : (req : PushRequest) → IsDone out.git repo req plan → IsPushed req m
    IsDone-IsPushed req (Settled.deleted empty gone unnamed) =
        deleted empty (left.1 req.remote ∙ rw unnamed gone)
    IsDone-IsPushed req (deferred {l = l} found named) =
        pointed {l = l} {layer = left.0} found (left.1 req.remote ∙ rw named refl)
    IsDone-IsPushed req (updated {l = l} {layer = layer} found there unnamed) =
        pointed {l = l} {layer = layer} found (left.1 req.remote ∙ rw unnamed there)

    AllDone-AllPushed :
        (reqs : List PushRequest) (resps : List PushResponse)
        → AllDone out.git repo plan reqs resps
        → AllPushed m reqs resps
    AllDone-AllPushed _ _ Done.none_left = none_left
    AllDone-AllPushed _ _ (Done.one_more {req} {reqs} {resp} {resps} name done rest) =
        one_more name (λ e. IsDone-IsPushed req (done e)) (AllDone-AllPushed reqs resps rest)

  plan_push-succeeds :
      (reqs : List PushRequest) (s t : Session T F) (plan : Plan)
      → plan_push out packer repo reqs s ≡ (ok plan, t)
      → ((compare_refs out.git repo reqs s.model).0 ≡ ok tt)
        × ((compare_refs out.git repo reqs s.model).1 ≡ plan)
        × (t.model ≡ plan.comparer.remote)
  unfolding plan_push
  plan_push-succeeds reqs s t plan h =
      let (u, done, same) =
        bind-eq-ok (compare_refs out.git repo reqs s.model).0 _ (ap (λ x. x.0) h) in
      let plan_is = ok-injective same in
      (done, plan_is, sym (ap (λ x. x.1.model) h) ∙ ap (λ p. p.comparer.remote) plan_is)

  module _ (foreign : IsForeign out.files) where
    pushed-Resolved :
        (reqs : List PushRequest) (plan : Plan) (s t u : Session T F)
        → IsMade s.model.cfg
        → Distinct reqs
        → plan_push out packer repo reqs s ≡ (ok plan, t)
        → push_refs out packer repo plan t ≡ (ok tt, u)
        → AllPushed u.model reqs plan.results × IsPublished out packer repo u
    pushed-Resolved reqs plan s t u made different planned pushed =
        let (done, plan_is, model_is) = plan_push-succeeds reqs s t plan planned in
        let (all, supported, still_made) =
          subst
            (λ q.
              AllDone out.git repo q reqs q.results
              × AllSupported out.git q.refs_in_new_pack
              × IsMade q.comparer.remote.cfg)
            plan_is (compare_refs-AllDone out.git repo reqs s.model made different done) in
        let body =
          push_refs-Resolved out packer repo plan foreign supported plan.comparer.remote
            still_made in
        let (left, published) = body.ensures t u tt model_is pushed in
        (AllDone-AllPushed plan u.model left reqs plan.results all, published)

    -- What HandlePush leaves when it succeeds, with what it has written
    pub handled :
        (l l' : Link T F) (reqs : List PushRequest)
        → IsMade l.session.model.cfg
        → (receive_push_batch l.comm).0 ≡ ok reqs
        → Distinct reqs
        → handle_push out packer repo l ≡ (ok tt, l')
        → (resps : List PushResponse) × (write_push_response resps (receive_push_batch l.comm).1
            ≡ (ok tt, l'.comm))
          × AllPushed l'.session.model reqs resps
          × IsPublished out packer repo l'.session
    unfolding handle_push
    handled l l' reqs made batch different h =
        let (found, (l1, (e1, h1))) = bind-succeeds _ _ l l' tt h in
        let (received, at1) =
          within-succeeds _ _ _ l l1 found (wrapping-succeeds _ _ _ l l1 found e1) in
        let same : found ≡ reqs = ok-injective (sym (ap (λ x. x.0) received) ∙ batch) in
        let (plan, (l2, (planned, h2))) = bind-succeeds _ _ l1 l' tt h1 in
        let (x3, (l3, (pushed, h3))) = bind-succeeds _ _ l2 l' tt h2 in
        let (plan_made, at2) = within-succeeds _ _ _ l1 l2 plan planned in
        let (body_done, at3) = within-succeeds _ _ _ l2 l3 x3 pushed in
        let (written, at4) = within-succeeds _ _ _ l3 l' tt (wrapping-succeeds _ _ _ l3 l' tt h3) in
        let comm1 : l3.comm ≡ (receive_push_batch l.comm).1 =
          ap (λ k. k.comm) at3 ∙ (ap (λ k. k.comm) at2 ∙ ap (λ k. k.comm) at1) in
        let (done, published) =
          pushed-Resolved found plan l1.session l2.session l3.session
            (subst (λ q. IsMade q.model.cfg) (sym (ap (λ k. k.session) at1)) made)
            (subst Distinct (sym same) different)
            (pairs (ap (λ x. x.0) plan_made) (sym (ap (λ k. k.session) at2)))
            (pairs (ap (λ x. x.0) body_done) (sym (ap (λ k. k.session) at3))) in
        (
          plan.results,
          subst (λ c. write_push_response plan.results c ≡ (ok tt, l'.comm)) comm1
              (pairs (ap (λ x. x.0) written) (sym (ap (λ k. k.comm) at4))),
          subst (λ q. AllPushed q.model reqs plan.results) (sym (ap (λ k. k.session) at4))
              (subst (λ rs. AllPushed l3.session.model rs plan.results) same done),
          subst (IsPublished out packer repo) (sym (ap (λ k. k.session) at4)) published,
        )

    -- A push does what it answers: where the error for an unsupported reference is none of the file
    -- store, the config of the modeler has both maps, and the requests of the batch have different
    -- remote names, if HandlePush succeeds, then it has written one response for each request, in
    -- order, and for each request that is answered without an error, the modeler that it has pushed
    -- has no reference of the remote name if the source is empty, and otherwise resolves the remote
    -- name to the commit that the local repository has for the source.
    pub handle_push-AllPushed :
        (l l' : Link T F) (reqs : List PushRequest)
        → IsMade l.session.model.cfg
        → (receive_push_batch l.comm).0 ≡ ok reqs
        → Distinct reqs
        → handle_push out packer repo l ≡ (ok tt, l')
        → (resps : List PushResponse) × (write_push_response resps (receive_push_batch l.comm).1
            ≡ (ok tt, l'.comm))
          × AllPushed l'.session.model reqs resps
    handle_push-AllPushed l l' reqs made batch different h =
        let (resps, written, all, published) = handled l l' reqs made batch different h in
        (resps, written, all)
