-- ===== src/Cmd/Compare/Settled/Updates.antt =====
-- The rounds of compareRefs that update a reference, and those of a pair as a whole.
use gnoci.Base.{
  beq_refl, [], ◌≡◌, refl, ◌∙◌, inl, inr, Bool, true, false, ◌||◌, Text, none, some, ◌==◌, text_eq,
  All-append, Bool-cases, arith,
}
use gnoci.Outcome.{Result-cases, ok, within, ◌>>=◌, ◌>>◌}
use gnoci.Plumbing.{Reference, GoGit, Repository}
use gnoci.Protocol.Push.{PushRequest}
use gnoci.Model.{Modeler, update_ref}
use gnoci.Model.Refs.{IsMade, resolve_ref-update_other, resolve_ref-update_same}
use gnoci.Model.Packed.{last_named, last_named-append}
use gnoci.Model.Refine.{update_ref-IsMade}
use gnoci.Refcomp.{RefPair, has_status, status_force, status_add_commit}
use gnoci.Refcomp.Named.{IsFor}
use gnoci.Cmd.Compare.{
  Plan, update_remote, update_case, add_commit_tip, updates, handle_pair, add_tip,
}
use gnoci.Cmd.Compare.Settled.{deferred, updated, Round, rebase, delete_remote-Round}

module _ (git : GoGit) (repo : Repository) where
  module _ (req : PushRequest) where
    -- UpdateRef with the reference, and its answer
    updated_at_once-Round :
        (p : Plan) (l : Reference) (layer : Text)
        → IsMade p.comparer.remote.cfg
        → repo.reference req.src ≡ ok l
        → (layer == []) ≡ false
        → last_named req.remote p.refs_in_new_pack ≡ none
        → Round git repo req p (
            update_remote git repo req.remote (record { name = req.remote; hash = l.hash }) layer p)
    unfolding update_remote within ◌>>=◌
    updated_at_once-Round p l layer made found e fresh =
        let ref : Reference = record { name = req.remote; hash = l.hash } in
        let m : Modeler = p.comparer.remote in
        let kept = update_ref-IsMade git ref layer m made in
        let apart = λ (name : Text) (n : (req.remote == name) ≡ false).
          resolve_ref-update_other git ref layer name m made n in
        elim (Result-cases (update_ref git ref layer m).0) [
          | inl (u, done) ↦
              rw (e, done)
                (record {
                  made = kept;
                  others = apart;
                  deferred_others = λ name n. refl;
                  all_supported = λ a. a;
                  cache_others = λ name n. refl;
                  answer = λ _. (
                    none,
                    refl,
                    λ _. updated found (resolve_ref-update_same git ref layer m made done) fresh,
                  );
                })
          | inr (inl (x, failed)) ↦
              rw (e, failed)
                (record {
                  made = kept;
                  others = apart;
                  deferred_others = λ name n. refl;
                  all_supported = λ a. a;
                  cache_others = λ name n. refl;
                  answer = λ _. (_, refl, λ no_error. cc);
                })
          | inr (inr (k, crashed)) ↦
              rw (e, crashed)
                (record {
                  made = kept;
                  others = apart;
                  deferred_others = λ name n. refl;
                  all_supported = λ a. a;
                  cache_others = λ name n. refl;
                  answer = λ done. cc;
                })
        ]

    update_remote-Round :
        (p : Plan) (l : Reference) (layer : Text)
        → IsMade p.comparer.remote.cfg
        → repo.reference req.src ≡ ok l
        → (git.is_branch req.remote || git.is_tag req.remote) ≡ true
        → last_named req.remote p.refs_in_new_pack ≡ none
        → Round git repo req p (
            update_remote git repo req.remote (record { name = req.remote; hash = l.hash }) layer p)
    unfolding update_remote ◌>>=◌
    update_remote-Round p l layer made found known fresh = elim (Bool-cases (layer == [])) [
      | inl e ↦ rw e (record {
        made = made;
        others = λ name n. refl;
        deferred_others = λ name n. last_named-append name p.refs_in_new_pack _ ∙ rw n refl;
        all_supported = λ a. All-append _ p.refs_in_new_pack _ a (known, tt);
        cache_others = λ name n. refl;
        answer = λ _. (
          none,
          refl,
          λ _.
              deferred found
                (last_named-append req.remote p.refs_in_new_pack _ ∙ rw (beq_refl req.remote) refl),
        );
      })
      | inr e ↦ updated_at_once-Round p l layer made found e fresh
    ]

    update_case-Round :
        (p : Plan) (rp : RefPair) (l : Reference)
        → IsMade p.comparer.remote.cfg
        → rp.remote.name ≡ req.remote
        → repo.reference req.src ≡ ok l
        → (git.is_branch req.remote || git.is_tag req.remote) ≡ true
        → last_named req.remote p.refs_in_new_pack ≡ none
        → Round git repo req p (update_case git repo req.remote rp (some l) p)
    unfolding update_case add_commit_tip ◌>>=◌
    update_case-Round p rp l made name found known fresh =
        rw name
          (of_tip (has_status rp.status status_force || has_status rp.status status_add_commit))
      where
        of_tip :
            (b : Bool)
            → Round git repo req p (
                (add_commit_tip git repo b l
                    >> update_remote git repo req.remote
                        (record { name = req.remote; hash = l.hash })
                        rp.layer)
                  p)
        of_tip true =
            rebase git repo req p (record p { new_commit_tips = add_tip l.hash p.new_commit_tips })
              _ refl refl refl (λ name n. refl)
              (update_remote-Round _ l rp.layer made found known fresh)
        of_tip false = update_remote-Round p l rp.layer made found known fresh

    pub handle_pair-Round :
        (p : Plan) (rp : RefPair)
        → IsMade p.comparer.remote.cfg
        → IsFor git repo req.src req.remote rp
        → last_named req.remote p.refs_in_new_pack ≡ none
        → Round git repo req p (handle_pair git repo req.remote rp p)
    unfolding handle_pair
    handle_pair-Round p rp made is_for fresh = elim is_for.asked [
      | inl (empty, delete) ↦
          rw delete (delete_remote-Round git repo req p made is_for.supported empty fresh)
      | inr (l, update) ↦
          let up : updates rp.status ≡ true = ground (arith, update.updated) in
          rw (update.not_deleted, up, update.local_is)
            (update_case-Round p rp l made is_for.name_is update.resolved is_for.supported fresh)
    ]
