-- ===== src/Cmd/Compare/Kept.antt =====
-- What compareRefs leaves of the modeler: whatever DeleteRef and UpdateRef leave.
use mathlib.Core.Path.{subst}
use gnoci.Base.{
  if◌then◌else◌, sym, [], Bool, true, false, Text, Option, none, some, ◌==◌, text_eq, List,
}
use gnoci.Outcome.{Action, Result, ok, err, crash}
use gnoci.Outcome.Keeps.{
  Keeps, Keeps-attempt, Keeps-bind, Keeps-then, Keeps-if, Keeps-lift, Keeps-modify, Keeps-pure,
  Keeps-part, Keeps-for_each,
}
use gnoci.Plumbing.{GoGit, Repository, Reference}
use gnoci.Protocol.Push.{PushRequest}
use gnoci.Model.{Modeler, delete_ref, update_ref}
use gnoci.Refcomp.{RefPair, compare_cached, has_status, status_delete}
use gnoci.Refcomp.Cache.{compare_cached-remote}
use gnoci.Cmd.Compare.{
  Plan, on_remote, respond, delete_remote, update_remote, update_case, add_commit_tip, updates,
  handle_pair, compared, handle_request, compare_refs, start_plan,
}

module _ (git : GoGit) (repo : Repository) (R : Modeler → Type 0)
    (deletes : (name : Text) → Keeps R (delete_ref git name))
    (moves : (ref : Reference) (layer : Text) → Keeps R (update_ref git ref layer)) where
  abbrev PlanKept : Plan → Type 0
  PlanKept p = R p.comparer.remote

  Keeps-on_remote : {A : Type 0} (m : Action Modeler A) → Keeps R m → Keeps PlanKept (on_remote m)
  Keeps-on_remote m k =
      Keeps-part _ _ (λ c. R c.remote) _ (Keeps-part _ _ R m k (λ c r h. h)) (λ p c h. h)

  delete_remote-Keeps : (name : Text) → Keeps PlanKept (delete_remote git repo name)
  unfolding delete_remote
  delete_remote-Keeps name =
      Keeps-bind _ _ (Keeps-attempt _ (Keeps-on_remote _ (deletes name)))
        λ gone. Keeps-bind _ _ (Keeps-lift _) λ e. record { after = λ p h. h }

  update_remote-Keeps :
      (name : Text) (ref : Reference) (layer : Text)
      → Keeps PlanKept (update_remote git repo name ref layer)
  unfolding update_remote
  update_remote-Keeps name ref layer =
      Keeps-if (layer == []) _ _
        (λ e. Keeps-then _ _ (Keeps-modify _ (λ p h. h)) (record { after = λ p h. h }))
        (λ e.
          Keeps-bind _ _ (Keeps-attempt _ (Keeps-on_remote _ (moves ref layer)))
            λ updated. Keeps-bind _ _ (Keeps-lift _) λ x. record { after = λ p h. h })

  add_commit_tip-Keeps :
      (add : Bool) (local : Reference) → Keeps PlanKept (add_commit_tip git repo add local)
  unfolding add_commit_tip
  add_commit_tip-Keeps true local = Keeps-modify _ (λ p h. h)
  add_commit_tip-Keeps false local = Keeps-pure tt

  update_case-Keeps :
      (name : Text) (rp : RefPair) (local : Option Reference)
      → Keeps PlanKept (update_case git repo name rp local)
  unfolding update_case
  update_case-Keeps name rp none = Keeps-lift _
  update_case-Keeps name rp (some local) =
      Keeps-then _ _ (add_commit_tip-Keeps _ local) (update_remote-Keeps name _ _)

  handle_pair-Keeps : (name : Text) (rp : RefPair) → Keeps PlanKept (handle_pair git repo name rp)
  unfolding handle_pair
  handle_pair-Keeps name rp =
      Keeps-if (has_status rp.status status_delete) (delete_remote git repo name)
        (if updates rp.status then update_case git repo name rp rp.local else respond name none)
        (λ e. delete_remote-Keeps name)
        λ e.
          Keeps-if (updates rp.status) (update_case git repo name rp rp.local) (respond name none)
            (λ f. update_case-Keeps name rp rp.local) (λ f. record { after = λ p h. h })

  compared-Keeps : (name : Text) (r : Result RefPair) → Keeps PlanKept (compared git repo name r)
  unfolding compared
  compared-Keeps name (ok rp) = handle_pair-Keeps name rp
  compared-Keeps name (err e) = record { after = λ p h. h }
  compared-Keeps name (crash k) = Keeps-lift _

  compare_cached-Keeps :
      (force : Bool) (local remote : Text)
      → Keeps (λ c. R c.remote) (compare_cached git repo force local remote)
  compare_cached-Keeps force local remote = record {
    after = λ c h. subst R (sym (compare_cached-remote git repo force local remote c)) h;
  }

  handle_request-Keeps : (req : PushRequest) → Keeps PlanKept (handle_request git repo req)
  unfolding handle_request
  handle_request-Keeps req =
      Keeps-bind _ _
        (Keeps-attempt _
          (Keeps-part _ _ (λ c. R c.remote) _ (compare_cached-Keeps _ _ _) (λ p c h. h)))
        λ rp. compared-Keeps req.remote rp

  pub compare_refs-kept :
      (reqs : List PushRequest) (m : Modeler)
      → R m
      → R (compare_refs git repo reqs m).1.comparer.remote
  unfolding compare_refs
  compare_refs-kept reqs m w =
      (Keeps-for_each reqs _ handle_request-Keeps).after (start_plan git repo m) w
