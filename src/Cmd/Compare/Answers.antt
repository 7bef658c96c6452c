-- ===== src/Cmd/Compare/Answers.antt =====
-- The responses of compareRefs: one for each request, in the order of the requests.
use gnoci.Base.{
  List, [], ◌∷◌, ◌++◌, ◌≡◌, refl, ◌∙◌, Bool, true, false, Text, append-nil, append_assoc,
  if◌then◌else◌, Option, none, some, map, ap, text_eq, ◌==◌, sym,
}
use gnoci.Outcome.{
  Action, Result, ok, err, crash, Error, is_ok, ◌>>=◌, for_each, lift, continue, ◌>>◌,
}
use gnoci.Outcome.Keeps.{Keeps, Keeps-attempt, Keeps-beside, Keeps-lift, Keeps-modify, Keeps-pure}
use gnoci.Plumbing.{GoGit, Repository, Reference}
use gnoci.Protocol.Push.{PushRequest, PushResponse}
use gnoci.Model.{Modeler}
use gnoci.Refcomp.{RefPair}
use gnoci.Cmd.Compare.{
  Plan, on_remote, respond, delete_remote, update_remote, update_case, add_commit_tip, handle_pair,
  compared, handle_request, compare_refs, start_plan,
}

-- The remote names that have been answered
abbrev pub answered : Plan → List Text
answered p = map (λ r. r.remote) p.results

abbrev Answered : List Text → Plan → Type 0
Answered names p = answered p ≡ names

map-append :
    (xs ys : List PushResponse)
    → map (λ r. r.remote) (xs ++ ys) ≡ map (λ r. r.remote) xs ++ map (λ r. r.remote) ys
map-append [] ys = refl
map-append (x ∷ xs) ys = rw (map-append xs ys) refl

-- When the method succeeds it has added responses for these names.
record Answers (names : List Text) (m : Action Plan (Unit {0})) : Type 0 where
  adds : (p : Plan) → is_ok (m p).0 ≡ true → answered (m p).1 ≡ answered p ++ names

Answers-respond : (name : Text) (e : Option Error) → Answers (name ∷ []) (respond name e)
Answers-respond name e = record { adds = λ p h. map-append p.results _ }

Answers-lift :
    (names : List Text) (r : Result (Unit {0})) → is_ok r ≡ false → Answers names (lift r)
unfolding lift
Answers-lift names r f = record { adds = λ p h. cc }

Answers-if :
    (names : List Text) (b : Bool) (m n : Action Plan (Unit {0}))
    → Answers names m
    → Answers names n
    → Answers names (if b then m else n)
Answers-if names true m n am an = am
Answers-if names false m n am an = an

Answers-continue :
    {A : Type 0} (names before : List Text) (r : Result A) (f : A → Action Plan (Unit {0}))
    (p : Plan)
    → ((a : A) → Answers names (f a))
    → answered p ≡ before
    → is_ok (continue r f p).0 ≡ true
    → answered (continue r f p).1 ≡ before ++ names
Answers-continue names before (ok a) f p k e h = (k a).adds p h ∙ ap (λ l. l ++ names) e
Answers-continue names before (err x) f p k e h = cc
Answers-continue names before (crash c) f p k e h = cc

Answers-bind :
    {A : Type 0} (names : List Text) (m : Action Plan A) (f : A → Action Plan (Unit {0}))
    → ((before : List Text) → Keeps (Answered before) m)
    → ((a : A) → Answers names (f a))
    → Answers names (m >>= f)
unfolding ◌>>=◌
Answers-bind names m f silent k = record {
  adds = λ p h.
      Answers-continue names (answered p) (m p).0 f (m p).1 k ((silent (answered p)).after p refl)
        h;
}

Answers-then :
    (xs ys : List Text) (m n : Action Plan (Unit {0}))
    → Answers xs m
    → Answers ys n
    → Answers (xs ++ ys) (m >> n)
unfolding ◌>>=◌
Answers-then xs ys m n am an = record { adds = λ p h. both p (m p).0 (m p).1 (am.adds p) h }
  where
    both :
        (p : Plan) (r : Result (Unit {0})) (q : Plan)
        → (is_ok r ≡ true → answered q ≡ answered p ++ xs)
        → is_ok (continue r (λ _. n) q).0 ≡ true
        → answered (continue r (λ _. n) q).1 ≡ answered p ++ (xs ++ ys)
    both p (ok u) q a h = rw (an.adds q h, a refl, append_assoc) refl
    both p (err e) q a h = cc
    both p (crash k) q a h = cc

silent-on_remote :
    {A : Type 0} (m : Action Modeler A) (before : List Text) → Keeps (Answered before) (on_remote m)
silent-on_remote m before = Keeps-beside _ _ _ _ (λ p q h. h)

module _ (git : GoGit) (repo : Repository) where
  delete_remote-Answers : (name : Text) → Answers (name ∷ []) (delete_remote git repo name)
  unfolding delete_remote
  delete_remote-Answers name =
      Answers-bind _ _ _ (λ b. Keeps-attempt _ (silent-on_remote _ b))
        λ gone. Answers-bind _ _ _ (λ b. Keeps-lift _) λ e. Answers-respond name e

  update_remote-Answers :
      (name : Text) (ref : Reference) (layer : Text)
      → Answers (name ∷ []) (update_remote git repo name ref layer)
  unfolding update_remote
  update_remote-Answers name ref layer =
      Answers-if _ (layer == []) _ _
        (Answers-bind _ _ _ (λ b. Keeps-modify _ (λ p h. h)) λ u. Answers-respond name none)
        (Answers-bind _ _ _ (λ b. Keeps-attempt _ (silent-on_remote _ b))
          λ updated. Answers-bind _ _ _ (λ b. Keeps-lift _) λ e. Answers-respond name e)

  silent-add_commit_tip :
      (add : Bool) (local : Reference) (before : List Text)
      → Keeps (Answered before) (add_commit_tip git repo add local)
  unfolding add_commit_tip
  silent-add_commit_tip true local before = Keeps-modify _ (λ p h. h)
  silent-add_commit_tip false local before = Keeps-pure tt

  update_case-Answers :
      (name : Text) (rp : RefPair) (local : Option Reference)
      → Answers (name ∷ []) (update_case git repo name rp local)
  unfolding update_case
  update_case-Answers name rp none = Answers-lift _ _ refl
  update_case-Answers name rp (some local) =
      Answers-bind _ _ _ (silent-add_commit_tip _ local) λ u. update_remote-Answers name _ _

  handle_pair-Answers :
      (name : Text) (rp : RefPair) → Answers (name ∷ []) (handle_pair git repo name rp)
  unfolding handle_pair
  handle_pair-Answers name rp =
      Answers-if _ _ _ _ (delete_remote-Answers name)
        (Answers-if _ _ _ _ (update_case-Answers name rp rp.local) (Answers-respond name none))

  compared-Answers :
      (name : Text) (r : Result RefPair) → Answers (name ∷ []) (compared git repo name r)
  unfolding compared
  compared-Answers name (ok rp) = handle_pair-Answers name rp
  compared-Answers name (err e) = Answers-respond name _
  compared-Answers name (crash k) = Answers-lift _ _ refl

  handle_request-Answers :
      (req : PushRequest) → Answers (req.remote ∷ []) (handle_request git repo req)
  unfolding handle_request
  handle_request-Answers req =
      Answers-bind _ _ _ (λ b. Keeps-attempt _ (Keeps-beside _ _ _ _ (λ p q h. h)))
        λ rp. compared-Answers req.remote rp

  for_each-Answers :
      (reqs : List PushRequest)
      → Answers (map (λ r. r.remote) reqs) (for_each reqs (handle_request git repo))
  unfolding for_each ◌>>=◌
  for_each-Answers [] = record { adds = λ p h. sym (append-nil (answered p)) }
  for_each-Answers (req ∷ reqs) =
      Answers-then _ _ _ _ (handle_request-Answers req) (for_each-Answers reqs)

  -- When compareRefs returns, it has answered every request of the batch exactly once, in the
  -- order of the batch.
  pub compare_refs-answered :
      (reqs : List PushRequest) (m : Modeler)
      → is_ok (compare_refs git repo reqs m).0 ≡ true
      → answered (compare_refs git repo reqs m).1 ≡ map (λ r. r.remote) reqs
  unfolding compare_refs
  compare_refs-answered reqs m h = (for_each-Answers reqs).adds (start_plan git repo m) h
