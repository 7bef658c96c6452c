-- ===== src/Cmd/Compare/Settled.antt =====
-- What one round of compareRefs does for its request, where the remote name is new.
pub mod Updates
use gnoci.Base.{
  beq_refl, List, [], ◌∷◌, ◌++◌, ◌≡◌, refl, sym, ap, ◌∙◌, inl, inr, Bool, true, false, ◌||◌, Text,
  Option, none, some, ◌==◌, text_eq, All, All-append, if◌then◌else◌, Bool-cases, arith,
}
use gnoci.Base.Dict.{lookup, insert, lookup-insert}
use gnoci.Outcome.{
  Result, Result-cases, ok, err, crash, Error, sentinel, wrapf, reference_not_found, Action,
  continue, caught, lift, within, ◌>>=◌, ◌>>◌,
}
use gnoci.Plumbing.{Reference, GoGit, Repository}
use gnoci.Protocol.Push.{PushRequest, PushResponse}
use gnoci.Model.{Modeler, resolve_ref, update_ref, delete_ref}
use gnoci.Model.Refs.{
  IsMade, delete_ref-ok, resolve_ref-delete_ref, resolve_ref-delete_other, resolve_ref-update_other,
  resolve_ref-update_same,
}
use gnoci.Model.Packed.{last_named, last_named-append, AllSupported}
use gnoci.Model.Refine.{update_ref-IsMade, delete_ref-IsMade}
use gnoci.Refcomp.{
  RefPair, compare_cached, has_status, status_delete, status_update_ref, status_force,
  status_add_commit,
}
use gnoci.Refcomp.Cache.{compare_cached-miss, compare_cached-others, compare_cached-remote}
use gnoci.Refcomp.Named.{IsFor, IsUpdate, compare_names-IsFor}
use gnoci.Cmd.Compare.{
  Plan, respond, delete_remote, update_remote, update_case, add_commit_tip, updates, handle_pair,
  compared, handle_request, outcome, add_tip,
}

module _ (git : GoGit) (repo : Repository) where
  -- What a request asks for is done: the reference is deleted; or it is left for the new packfile, or
  -- it resolves, with the commit that the local reference points to.
  pub data IsDone (req : PushRequest) (p : Plan) : Type 0 where
    deleted :
        req.src ≡ []
        → resolve_ref git req.remote p.comparer.remote
          ≡ err (wrapf "%w: %s" (req.remote ∷ []) (sentinel reference_not_found))
        → last_named req.remote p.refs_in_new_pack ≡ none
        → IsDone req p
    deferred :
        {l : Reference}
        → repo.reference req.src ≡ ok l
        → last_named req.remote p.refs_in_new_pack
          ≡ some (record { name = req.remote; hash = l.hash })
        → IsDone req p
    updated :
        {l : Reference} {layer : Text}
        → repo.reference req.src ≡ ok l
        → resolve_ref git req.remote p.comparer.remote
          ≡ ok (record { name = req.remote; hash = git.new_hash (git.hash_string l.hash) }, layer)
        → last_named req.remote p.refs_in_new_pack ≡ none
        → IsDone req p

  -- A round answers its request, and leaves alone what is about other names.
  pub record Round (req : PushRequest) (p : Plan) (x : Result (Unit {0}) × Plan) : Type 0 where
    pub made : IsMade x.1.comparer.remote.cfg
    pub others :
        (name : Text)
        → (req.remote == name) ≡ false
        → resolve_ref git name x.1.comparer.remote ≡ resolve_ref git name p.comparer.remote
    pub deferred_others :
        (name : Text)
        → (req.remote == name) ≡ false
        → last_named name x.1.refs_in_new_pack ≡ last_named name p.refs_in_new_pack
    pub all_supported : AllSupported git p.refs_in_new_pack → AllSupported git x.1.refs_in_new_pack
    pub cache_others :
        (name : Text)
        → (req.remote == name) ≡ false
        → lookup name x.1.comparer.refs ≡ lookup name p.comparer.refs
    pub answer :
        x.0 ≡ ok tt
        → (e : Option Error) × (x.1.results
            ≡ p.results ++ (record { remote = req.remote; error = e } ∷ []))
          × (e ≡ none → IsDone req x.1)

  module _ (req : PushRequest) where
    -- A round from a plan that differs in the tips and in what is cached for the name
    pub rebase :
        (p q : Plan) (x : Result (Unit {0}) × Plan)
        → q.comparer.remote ≡ p.comparer.remote
        → q.refs_in_new_pack ≡ p.refs_in_new_pack
        → q.results ≡ p.results
        → ((name : Text)
            → (req.remote == name) ≡ false
            → lookup name q.comparer.refs ≡ lookup name p.comparer.refs)
        → Round req q x
        → Round req p x
    rebase p q x remote left results cache r = record {
      made = r.made;
      others = λ name apart. r.others name apart ∙ ap (resolve_ref git name) remote;
      deferred_others = λ name n. r.deferred_others name n ∙ ap (last_named name) left;
      all_supported = λ a. r.all_supported (rw left a);
      cache_others = λ name apart. r.cache_others name apart ∙ cache name apart;
      answer = λ done.
          let (e, said, settled) = r.answer done in
          (
            e,
            said ∙ ap (λ l. l ++ (record { remote = req.remote; error = e } ∷ [])) results,
            settled,
          );
    }

    -- A request that is refused
    pub refused-Round :
        (p : Plan) (e : Error)
        → IsMade p.comparer.remote.cfg
        → Round req p (respond req.remote (some e) p)
    refused-Round p e made = record {
      made = made;
      others = λ name apart. refl;
      deferred_others = λ name n. refl;
      all_supported = λ a. a;
      cache_others = λ name apart. refl;
      answer = λ done. (some e, refl, λ no_error. cc);
    }

    pub delete_remote-Round :
        (p : Plan)
        → IsMade p.comparer.remote.cfg
        → (git.is_branch req.remote || git.is_tag req.remote) ≡ true
        → req.src ≡ []
        → last_named req.remote p.refs_in_new_pack ≡ none
        → Round req p (delete_remote git repo req.remote p)
    unfolding delete_remote within ◌>>=◌
    delete_remote-Round p made known empty fresh =
        rw (delete_ref-ok git req.remote p.comparer.remote known) (record {
          made = delete_ref-IsMade git req.remote p.comparer.remote made;
          others = λ name apart.
              resolve_ref-delete_other git req.remote name p.comparer.remote known apart;
          deferred_others = λ name n. refl;
          all_supported = λ a. a;
          cache_others = λ name apart. refl;
          answer = λ done. (
            none,
            refl,
            λ _.
                deleted empty
                  (rw (beq_refl req.remote) at
                    (resolve_ref-delete_ref git req.remote req.remote p.comparer.remote known))
                  fresh,
          );
        })
