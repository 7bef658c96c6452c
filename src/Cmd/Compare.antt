-- ===== src/Cmd/Compare.antt =====
-- compareRefs and reachableObjs of the push command (internal/cmd/push.go).
pub mod Answers
pub mod Kept
pub mod Placed
pub mod Deferred
pub mod Settled
pub mod Done
use gnoci.Base.{
  List, [], ◌∷◌, ◌++◌, Option, none, some, Bool, true, false, ◌||◌, String, Text, text_eq, nat_eq,
  ◌==◌, contains, map, if◌then◌else◌,
}
use gnoci.Base.Dict.{Dict}
use gnoci.Outcome.{
  Result, ok, err, crash, Error, wrapf, is, unsupported_reference_type, nil_dereference, Action,
  pure, lift, modify, attempt, within, for_each, wrap, ◌>>=◌, ◌>>◌,
}
use gnoci.Plumbing.{Hash, Reference, GoGit, Repository}
use gnoci.Oci.{ReferenceInfo}
use gnoci.Protocol.Push.{PushRequest, PushResponse}
use gnoci.Model.{Modeler, update_ref, delete_ref, head_refs, tag_refs}
use gnoci.Refcomp.{
  Status, RefPair, Comparer, compare_cached, has_status, status_delete, status_force,
  status_add_commit, status_update_ref,
}

-- The variables of the loop. `new_commit_tips` is the set of the code's map, without repetitions.
-- The modeler that the loop updates is the one that the comparer reads.
pub record Plan : Type 0 where
  pub comparer : Comparer
  pub new_commit_tips : List Hash
  pub refs_in_new_pack : List Reference
  pub results : List PushResponse

abbrev pub on_comparer : {A : Type 0} → Action Comparer A → Action Plan A
on_comparer = within (λ p. p.comparer) (λ p c. record p { comparer = c })

abbrev pub on_remote : {A : Type 0} → Action Modeler A → Action Plan A
on_remote m = on_comparer (within (λ c. c.remote) (λ c r. record c { remote = r }) m)

abbrev pub respond : Text → Option Error → Action Plan (Unit {0})
respond remote e p =
    (ok tt, record p { results = p.results ++ (record { remote = remote; error = e } ∷ []) })

-- The three cases of the switch that update the remote
abbrev pub updates : Status → Bool
updates status =
    has_status status status_force
    || has_status status status_add_commit
    || has_status status status_update_ref

-- The two texts for an error of a call, by whether it is about an unsupported reference
abbrev pub outcome : String → String → Result (Unit {0}) → Result (Option Error)
outcome unsupported other (ok u) = ok none
outcome unsupported other (err e) =
    ok (some (if is unsupported_reference_type e then wrapf unsupported [] e else wrapf other [] e))
outcome unsupported other (crash k) = crash k

abbrev pub add_tip : Hash → List Hash → List Hash
add_tip h tips = if contains tips h then tips else tips ++ (h ∷ [])

module _ (git : GoGit) (repo : Repository) where
  unfoldable pub delete_remote : Text → Action Plan (Unit {0})
  delete_remote name = do
    gone ← attempt (on_remote (delete_ref git name))
    e ← lift (
        outcome "encountered unsupported reference type when deleting remote ref: %w"
          "deleting reference from remote: %w" gone)
    respond name e

  -- `name` is the name in the request.
  unfoldable pub update_remote : Text → Reference → Text → Action Plan (Unit {0})
  update_remote name ref layer =
      if layer == []
      then (do
        modify (λ p. record p { refs_in_new_pack = p.refs_in_new_pack ++ (ref ∷ []) })
        respond name none)
      else (do
        updated ← attempt (on_remote (update_ref git ref layer))
        e ← lift (
            outcome "encountered unsupported reference type when updating remote ref: %w"
              "updating remote reference: %w" updated)
        respond name e)

  add_commit_tip : Bool → Reference → Action Plan (Unit {0})
  add_commit_tip true local =
      modify (λ p. record p { new_commit_tips = add_tip local.hash p.new_commit_tips })
  add_commit_tip false local = pure tt

  -- The cases below the one for deletion; the force case falls through to the others.
  update_case : Text → RefPair → Option Reference → Action Plan (Unit {0})
  unfolding add_commit_tip
  update_case name rp none = lift (crash nil_dereference)
  update_case name rp (some local) = do
    add_commit_tip (has_status rp.status status_force || has_status rp.status status_add_commit)
        local
    update_remote name (record { name = rp.remote.name; hash = local.hash }) rp.layer

  unfoldable pub handle_pair : Text → RefPair → Action Plan (Unit {0})
  unfolding update_case
  handle_pair name rp =
      if has_status rp.status status_delete
      then delete_remote name
      else if updates rp.status
      then update_case name rp rp.local
      else respond name none

  compared : Text → Result RefPair → Action Plan (Unit {0})
  compared name (ok rp) = handle_pair name rp
  compared name (err e) = respond name (
      some (
        if is unsupported_reference_type e
        then wrapf "encountered unsupported reference type when comparing local to remote ref: %w"
            [] e
        else wrapf "comparing local ref to remote ref: %w" [] e))
  compared name (crash k) = lift (crash k)

  -- One round of the loop
  unfoldable pub handle_request : PushRequest → Action Plan (Unit {0})
  unfolding compared
  handle_request req = do
    rp ← attempt (on_comparer (compare_cached git repo req.force req.src req.remote))
    compared req.remote rp

  abbrev pub start_plan : Modeler → Plan
  start_plan m = record {
    comparer = record { refs = []; remote = m };
    new_commit_tips = [];
    refs_in_new_pack = [];
    results = [];
  }

  -- The plan that compareRefs leaves, with the modeler that its calls have changed
  unfoldable pub compare_refs : List PushRequest → Modeler → Result (Unit {0}) × Plan
  compare_refs reqs m = for_each reqs handle_request (start_plan m)

  commits_of : Dict ReferenceInfo → List Hash
  commits_of refs = map (λ entry. git.new_hash entry.1.commit) refs

  unfoldable pub reachable_objs : Modeler → List Hash → Result (List Hash)
  unfolding commits_of
  reachable_objs remote new_commits =
      wrap "resolving new reachable objects: %w" []
        (repo.objects new_commits (commits_of (head_refs remote) ++ commits_of (tag_refs remote)))
