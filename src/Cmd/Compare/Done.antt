-- ===== src/Cmd/Compare/Done.antt =====
-- What compareRefs has done when it returns, for requests with different remote names.
use gnoci.Base.{
  List, [], ◌∷◌, ◌++◌, ◌≡◌, ◌≢◌, refl, sym, ap, ◌∙◌, inl, inr, false, Text, none, ◌==◌, text_eq,
  All, append_assoc, append-nil, Bool-cases,
}
use gnoci.Base.Dict.{lookup}
use gnoci.Outcome.{Result, ok, err, crash, caught, continue, for_each, pure, within, ◌>>=◌}
use gnoci.Plumbing.{GoGit, Repository}
use gnoci.Protocol.Push.{PushRequest, PushResponse}
use gnoci.Model.{Modeler, resolve_ref}
use gnoci.Model.Refs.{IsMade}
use gnoci.Model.Packed.{last_named, AllSupported}
use gnoci.Model.Invariant.{All-weaken}
use gnoci.Refcomp.{RefPair, compare_cached}
use gnoci.Refcomp.Cache.{compare_cached-miss, compare_cached-others, compare_cached-remote}
use gnoci.Refcomp.Named.{IsFor, compare_names-IsFor}
use gnoci.Cmd.Compare.{Plan, compared, handle_request, compare_refs, start_plan}
use gnoci.Cmd.Compare.Settled.{IsDone, deleted, deferred, updated, Round, rebase, refused-Round}
use gnoci.Cmd.Compare.Settled.Updates.{handle_pair-Round}

-- No two requests have the same remote name.
abbrev pub Distinct : List PushRequest → Type 0
Distinct [] = Unit
Distinct (req ∷ reqs) = All (λ other. req.remote ≢ other.remote) reqs × Distinct reqs

apart : (a b : Text) → a ≢ b → (a == b) ≡ false
apart a b n = elim (Bool-cases (a == b)) [
  | inl e ↦ absurd (n ((text_eq.beq_iff a b).0 e))
  | inr e ↦ e
]

module _ (git : GoGit) (repo : Repository) where
  -- The responses answer the requests in order, and what is answered without an error is done.
  pub data AllDone (p : Plan) : List PushRequest → List PushResponse → Type 0 where
    none_left : AllDone p [] []
    one_more :
        {req : PushRequest} {reqs : List PushRequest} {resp : PushResponse}
        {resps : List PushResponse}
        → resp.remote ≡ req.remote
        → (resp.error ≡ none → IsDone git repo req p)
        → AllDone p reqs resps
        → AllDone p (req ∷ reqs) (resp ∷ resps)

  compared-Round :
      (req : PushRequest) (p : Plan) (r : Result RefPair)
      → IsMade p.comparer.remote.cfg
      → ((rp : RefPair) → r ≡ ok rp → IsFor git repo req.src req.remote rp)
      → last_named req.remote p.refs_in_new_pack ≡ none
      → Round git repo req p (continue (caught r) (compared git repo req.remote) p)
  unfolding compared
  compared-Round req p (ok rp) made is_for fresh =
      handle_pair-Round git repo req p rp made (is_for rp refl) fresh
  compared-Round req p (err e) made is_for fresh = refused-Round git repo req p _ made
  compared-Round req p (crash k) made is_for fresh = record {
    made = made;
    others = λ name n. refl;
    deferred_others = λ name n. refl;
    all_supported = λ a. a;
    cache_others = λ name n. refl;
    answer = λ done. cc;
  }

  handle_request-Round :
      (req : PushRequest) (p : Plan)
      → IsMade p.comparer.remote.cfg
      → lookup req.remote p.comparer.refs ≡ none
      → last_named req.remote p.refs_in_new_pack ≡ none
      → Round git repo req p (handle_request git repo req p)
  unfolding handle_request within ◌>>=◌
  handle_request-Round req p made fresh unnamed =
      let (r, c) = compare_cached git repo req.force req.src req.remote p.comparer in
      let same = compare_cached-remote git repo req.force req.src req.remote p.comparer in
      rebase git repo req p (record p { comparer = c }) _ same refl refl
        (λ name n. compare_cached-others git repo req.force req.src req.remote name p.comparer n)
        (compared-Round req (record p { comparer = c }) r (rw same made)
          (λ rp e.
            compare_names-IsFor git repo req.force req.src req.remote p.comparer.remote rp (
              sym (compare_cached-miss git repo req.force req.src req.remote p.comparer fresh) ∙ e))
          unnamed)

  IsDone-kept :
      (req : PushRequest) (p q : Plan)
      → resolve_ref git req.remote q.comparer.remote ≡ resolve_ref git req.remote p.comparer.remote
      → last_named req.remote q.refs_in_new_pack ≡ last_named req.remote p.refs_in_new_pack
      → IsDone git repo req p
      → IsDone git repo req q
  IsDone-kept req p q same named (deleted e gone none_named) =
      deleted e (same ∙ gone) (named ∙ none_named)
  IsDone-kept req p q same named (deferred found last) = deferred found (named ∙ last)
  IsDone-kept req p q same named (updated found there none_named) =
      updated found (same ∙ there) (named ∙ none_named)

  abbrev Fresh : List PushRequest → Plan → Type 0
  Fresh reqs p =
      All
        (λ req.
          (lookup req.remote p.comparer.refs ≡ none)
          × (last_named req.remote p.refs_in_new_pack ≡ none))
        reqs

  Fresh-after :
      (req : PushRequest) (reqs : List PushRequest) (p q : Plan)
      → ((name : Text)
          → (req.remote == name) ≡ false
          → lookup name q.comparer.refs ≡ lookup name p.comparer.refs)
      → ((name : Text)
          → (req.remote == name) ≡ false
          → last_named name q.refs_in_new_pack ≡ last_named name p.refs_in_new_pack)
      → All (λ other. req.remote ≢ other.remote) reqs
      → Fresh reqs p
      → Fresh reqs q
  Fresh-after req [] p q cache named others fresh = tt
  Fresh-after req (other ∷ reqs) p q cache named (n, others) (f, fresh) =
      let different = apart req.remote other.remote n in
      (
        (cache other.remote different ∙ f.0, named other.remote different ∙ f.1),
        Fresh-after req reqs p q cache named others fresh,
      )

  record Rounds (reqs : List PushRequest) (p : Plan) (x : Result (Unit {0}) × Plan) : Type 0 where
    made : IsMade x.1.comparer.remote.cfg
    others :
        (name : Text)
        → All (λ req. req.remote ≢ name) reqs
        → resolve_ref git name x.1.comparer.remote ≡ resolve_ref git name p.comparer.remote
    deferred_others :
        (name : Text)
        → All (λ req. req.remote ≢ name) reqs
        → last_named name x.1.refs_in_new_pack ≡ last_named name p.refs_in_new_pack
    all_supported : AllSupported git p.refs_in_new_pack → AllSupported git x.1.refs_in_new_pack
    answers :
        x.0 ≡ ok tt
        → (resps : List PushResponse) × (x.1.results ≡ p.results ++ resps) × AllDone x.1 reqs resps

  -- A round that does not return ends the loop.
  stopped-Rounds :
      (req : PushRequest) (reqs : List PushRequest) (p q : Plan) (r : Result (Unit {0}))
      → r ≢ ok tt
      → Round git repo req p (r, q)
      → Rounds (req ∷ reqs) p (r, q)
  stopped-Rounds req reqs p q r stop first = record {
    made = first.made;
    others = λ name n. first.others name (apart req.remote name n.0);
    deferred_others = λ name n. first.deferred_others name (apart req.remote name n.0);
    all_supported = first.all_supported;
    answers = λ done. absurd (stop done);
  }

  joined-Rounds :
      (req : PushRequest) (reqs : List PushRequest) (p q : Plan) (x : Result (Unit {0}) × Plan)
      → All (λ other. req.remote ≢ other.remote) reqs
      → Round git repo req p (ok tt, q)
      → Rounds reqs q x
      → Rounds (req ∷ reqs) p x
  joined-Rounds req reqs p q x different first rest = record {
    made = rest.made;
    others = λ name n. rest.others name n.1 ∙ first.others name (apart req.remote name n.0);
    deferred_others = λ name n.
        rest.deferred_others name n.1 ∙ first.deferred_others name (apart req.remote name n.0);
    all_supported = λ a. rest.all_supported (first.all_supported a);
    answers = λ done.
        let (e, said, settled) = first.answer refl in
        let (resps, more, all) = rest.answers done in
        let resp : PushResponse = record { remote = req.remote; error = e } in
        let alone = All-weaken reqs (λ other n same. n (sym same)) different in
        (
          resp ∷ resps,
          more ∙ ap (λ l. l ++ resps) said ∙ append_assoc p.results (resp ∷ []) resps,
          one_more refl
              (λ no_error.
                IsDone-kept req q x.1 (rest.others req.remote alone)
                  (rest.deferred_others req.remote alone) (settled no_error))
              all,
        );
  }

  for_each-Rounds :
      (reqs : List PushRequest) (p : Plan)
      → IsMade p.comparer.remote.cfg
      → Distinct reqs
      → Fresh reqs p
      → Rounds reqs p (for_each reqs (handle_request git repo) p)
  unfolding for_each pure ◌>>=◌
  for_each-Rounds [] p made different fresh = record {
    made = made;
    others = λ name n. refl;
    deferred_others = λ name n. refl;
    all_supported = λ a. a;
    answers = λ done. ([], sym (append-nil p.results), none_left);
  }
  for_each-Rounds (req ∷ reqs) p made different fresh =
      ended (handle_request git repo req p).0 (handle_request git repo req p).1
        (handle_request-Round req p made fresh.0.0 fresh.0.1)
        (λ q made' fresh'. for_each-Rounds reqs q made' different.1 fresh')
    where
      ended :
          (r : Result (Unit {0})) (q : Plan)
          → Round git repo req p (r, q)
          → ((q : Plan)
              → IsMade q.comparer.remote.cfg
              → Fresh reqs q
              → Rounds reqs q (for_each reqs (handle_request git repo) q))
          → Rounds (req ∷ reqs) p (continue r (λ u. for_each reqs (handle_request git repo)) q)
      ended (ok tt) q first more = joined-Rounds req reqs p q _ different.0 first (
          more q first.made
            (Fresh-after req reqs p q first.cache_others first.deferred_others different.0 fresh.1))
      ended (err e) q first more = stopped-Rounds req reqs p q (err e) (λ h. cc) first
      ended (crash k) q first more = stopped-Rounds req reqs p q (crash k) (λ h. cc) first

  all-Fresh : (reqs : List PushRequest) (m : Modeler) → Fresh reqs (start_plan git repo m)
  unfolding lookup last_named
  all-Fresh [] m = tt
  all-Fresh (req ∷ reqs) m = ((refl, refl), all-Fresh reqs m)

  -- What compareRefs has answered, it has done, or leaves for the packfile.
  pub compare_refs-AllDone :
      (reqs : List PushRequest) (m : Modeler)
      → IsMade m.cfg
      → Distinct reqs
      → (compare_refs git repo reqs m).0 ≡ ok tt
      → let q : Plan = (compare_refs git repo reqs m).1 in
        AllDone q reqs q.results
        × AllSupported git q.refs_in_new_pack
        × IsMade q.comparer.remote.cfg
  unfolding compare_refs
  compare_refs-AllDone reqs m made different done =
      let rounds = for_each-Rounds reqs (start_plan git repo m) made different (all-Fresh reqs m) in
      let (resps, said, all) = rounds.answers done in
      (rw (← said) at all, rounds.all_supported tt, rounds.made)
