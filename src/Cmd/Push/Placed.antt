-- ===== src/Cmd/Push/Placed.antt =====
-- HandlePush keeps the references of the modeler placed in layers of the manifest.
use gnoci.Base.{[], ◌∷◌, Text, List, text_eq}
use gnoci.Outcome.{Action, within}
use gnoci.Outcome.Keeps.{
  Keeps, Keeps-attempt, Keeps-beside, Keeps-bind, Keeps-then, Keeps-lift, Keeps-pure, Keeps-part,
  Keeps-wrapping, Keeps-gets, Keeps-asks,
}
use gnoci.Plumbing.{Repository}
use gnoci.Protocol.Push.{PushRequest}
use gnoci.Model.Invariant.{SessionWellFormed, add_pack-IsWellFormed}
use gnoci.Model.Session.{Outside, Session, with_files, push}
use gnoci.Model.Session.Pushed.{push-Keeps}
use gnoci.Model.Lfs.{update_lfs_referrer}
use gnoci.Model.Lfs.Updates.{Ignores, update_lfs_referrer-Keeps}
use gnoci.Cmd.Compare.{Plan}
use gnoci.Cmd.Compare.Placed.{compare_refs-IsWellFormed}
use gnoci.Cmd.Push.{Packer, Link, plan_push, push_refs, removing, handle_push}

module _ {T F : Type 0} (out : Outside T F) (packer : Packer F) (repo : Repository) where
  abbrev Placed : Session T F → Type 0
  Placed = SessionWellFormed out.git

  Placed-with_files : {A : Type 0} (m : Action F A) → Keeps Placed (with_files m)
  Placed-with_files m = Keeps-beside _ _ Placed m (λ s q h. h)

  Placed-Ignores : Ignores out Placed
  Placed-Ignores = record {
    lfs_man_desc = λ s d h. record { heads_placed = h.heads_placed; tags_placed = h.tags_placed };
    lfs_man = λ s m h. record { heads_placed = h.heads_placed; tags_placed = h.tags_placed };
    packed = λ s media o h. h;
    deleted = λ delete e s d listed h. h;
  }

  push-Placed : Keeps Placed (push out (update_lfs_referrer out ∷ []))
  push-Placed =
      push-Keeps out Placed
        (record {
          pushed = λ s d raw h. h;
          bytes_pushed = λ s media raw h. h;
          packed = λ s media o h. h;
        })
        _ (update_lfs_referrer-Keeps out Placed Placed-Ignores, tt) (λ s t h. h)

  removing-Placed :
      {A : Type 0} (tmp : Text) (m : Action (Session T F) A)
      → Keeps Placed m
      → Keeps Placed (removing out packer repo tmp m)
  unfolding removing within
  removing-Placed tmp m k = record { after = λ s h. k.after s h }

  push_refs-Placed : (plan : Plan) → Keeps Placed (push_refs out packer repo plan)
  unfolding push_refs
  push_refs-Placed plan = Keeps-bind _ _ (Keeps-asks _) λ objs.
      Keeps-bind _ _ (Keeps-wrapping _ _ _ (Placed-with_files _)) λ tmp. removing-Placed tmp _ (
        Keeps-then _ _ (Keeps-wrapping _ _ _ (Placed-with_files _)) (
          Keeps-bind _ _ (Keeps-gets _) λ thin.
            Keeps-bind _ _ (Keeps-wrapping _ _ _ (Placed-with_files _)) λ pack_hash.
              Keeps-bind _ _ (Keeps-lift _) λ path.
                Keeps-bind _ _
                  (Keeps-attempt _ (add_pack-IsWellFormed out path plan.refs_in_new_pack))
                  λ added.
                    Keeps-then _ _ (Keeps-lift _)
                      (Keeps-then _ _ (Keeps-wrapping _ _ _ push-Placed) (Keeps-pure tt))))

  plan_push-Placed : (reqs : List PushRequest) → Keeps Placed (plan_push out packer repo reqs)
  unfolding plan_push
  plan_push-Placed reqs = record {
    after = λ s h. compare_refs-IsWellFormed out.git repo reqs s.model h;
  }

  -- If every branch and tag of the modeler stands in its own map and names a layer of the manifest,
  -- then this is so after HandlePush, whatever Git asks for and however the push ends.
  pub handle_push-IsWellFormed :
      (l : Link T F)
      → SessionWellFormed out.git l.session
      → SessionWellFormed out.git (handle_push out packer repo l).1.session
  unfolding handle_push
  handle_push-IsWellFormed l h = steps.after l h
    where
      steps : Keeps (λ l. Placed l.session) (handle_push out packer repo)
      steps = Keeps-bind _ _ (Keeps-wrapping _ _ _ (Keeps-beside _ _ _ _ (λ l c h. h))) λ reqs.
          Keeps-bind _ _ (Keeps-part _ _ Placed _ (plan_push-Placed reqs) (λ l s h. h)) λ plan.
            Keeps-then _ _ (Keeps-part _ _ Placed _ (push_refs-Placed plan) (λ l s h. h))
              (Keeps-wrapping _ _ _ (Keeps-beside _ _ _ _ (λ l c h. h)))
