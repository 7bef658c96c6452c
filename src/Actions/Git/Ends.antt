-- ===== src/Actions/Git/Ends.antt =====
-- The loop of Run ends: every round but the last takes a line from the input.
use gnoci.Base.{
  ℕ, zero, suc, ◌<◌, List, [], ◌∷◌, ◌≡◌, ◌≢◌, refl, Bool, true, false, Text, Option, none, some,
  length, arith, text_eq,
}
use gnoci.Outcome.{
  Result, ok, err, crash, Crash, out_of_fuel, Error, is, empty_request, pure, continue, caught,
  ◌>>=◌,
}
use gnoci.Outcome.Keeps.{Keeps-continue}
use gnoci.Comms.{Communicator, look_ahead, receive_push_batch, receive_fetch_batch}
use gnoci.Comms.Fuel.{receive_push_batch-Ends, receive_fetch_batch-Ends}
use gnoci.Comms.Consumes.{look_ahead-takes, look_ahead-stops, stop_error}
use gnoci.Actions.Git.{GitAction, Host, dispatch, handle_cmd, run_loop, run}
use gnoci.Actions.Git.Left.{InputLeft, dispatch-Left}

-- The error of the scanner, if there is one, is not the one for an empty line.
abbrev pub Distinct : Option Error → Type 0
Distinct none = Unit
Distinct (some e) = is empty_request e ≡ false

module _ {T F L : Type 0} (host : Host T F L) where
  handle_cmd-takes :
      (a : GitAction T F L) (line : Text) (rest : List Text)
      → a.console.comm.input.lines ≡ line ∷ rest
      → InputLeft host (length rest) a.console.comm.input.fault (handle_cmd host a).1
  unfolding handle_cmd ◌>>=◌
  handle_cmd-takes a line rest e =
      (Keeps-continue (caught (look_ahead a.console.comm).0) (dispatch host)
          (λ r _. dispatch-Left host (length rest) a.console.comm.input.fault r)).after
        (record a { console = record a.console { comm = (look_ahead a.console.comm).1 } })
        (look_ahead-takes a.console.comm line rest e)

  dispatch-last :
      (fault : Option Error) (a : GitAction T F L)
      → Distinct fault
      → (dispatch host (err (stop_error fault)) a).0 ≢ ok false
  unfolding dispatch ◌>>=◌
  dispatch-last none a d h = cc
  dispatch-last (some e) a d h = ground (arith, d, h)

  -- Without a line left, Run stops or fails.
  handle_cmd-last :
      (a : GitAction T F L)
      → a.console.comm.input.lines ≡ []
      → Distinct a.console.comm.input.fault
      → (handle_cmd host a).0 ≢ ok false
  unfolding handle_cmd ◌>>=◌
  handle_cmd-last a e d h =
      dispatch-last a.console.comm.input.fault a d (rw (look_ahead-stops a.console.comm e) at h)

  -- How the loop of the code runs from here: `for { done, err := handleCmd(); ... }`
  pub data Runs : GitAction T F L → Result (Unit {0}) × GitAction T F L → Type 0 where
    stops : {a b : GitAction T F L} → handle_cmd host a ≡ (ok true, b) → Runs a (ok tt, b)
    fails : {a b : GitAction T F L} {e : Error} → handle_cmd host a ≡ (err e, b) → Runs a (err e, b)
    panics :
        {a b : GitAction T F L} {k : Crash} → handle_cmd host a ≡ (crash k, b) → Runs a (crash k, b)
    goes_on :
        {a b : GitAction T F L} {x : Result (Unit {0}) × GitAction T F L}
        → handle_cmd host a ≡ (ok false, b)
        → Runs b x
        → Runs a x

  -- What the next rounds start from
  abbrev Rounds : ℕ → Option Error → GitAction T F L → Type 0
  Rounds fuel fault b =
      (length b.console.comm.input.lines < fuel) × (b.console.comm.input.fault ≡ fault)

  handle_cmd-Rounds :
      (a : GitAction T F L) (fuel : ℕ)
      → Distinct a.console.comm.input.fault
      → length a.console.comm.input.lines < suc fuel
      → (handle_cmd host a).0 ≡ ok false
      → Rounds fuel a.console.comm.input.fault (handle_cmd host a).1
  handle_cmd-Rounds a fuel d l h = known a.console.comm.input.lines refl
    where
      known :
          (lines : List Text)
          → a.console.comm.input.lines ≡ lines
          → Rounds fuel a.console.comm.input.fault (handle_cmd host a).1
      known [] e = absurd (handle_cmd-last a e d h)
      known (line ∷ rest) e =
          let (left, same) = handle_cmd-takes a line rest e in
          let l2 : length (line ∷ rest) < suc fuel = rw e at l in (omega (arith, l2, left), same)

  one_round :
      (fuel : ℕ) (a : GitAction T F L) (r : Result Bool) (b : GitAction T F L)
      → handle_cmd host a ≡ (r, b)
      → (r ≡ ok false → Runs b (run_loop host fuel b))
      → Runs a (continue r (λ done. elim done [ true ↦ pure tt | false ↦ run_loop host fuel ]) b)
  unfolding pure
  one_round fuel a (ok true) b e more = stops e
  one_round fuel a (ok false) b e more = goes_on e (more refl)
  one_round fuel a (err x) b e more = fails e
  one_round fuel a (crash k) b e more = panics e

  run_loop-Runs :
      (fuel : ℕ) (a : GitAction T F L)
      → Distinct a.console.comm.input.fault
      → length a.console.comm.input.lines < fuel
      → Runs a (run_loop host fuel a)
  unfolding run_loop ◌>>=◌
  run_loop-Runs zero a d l = elim l [ ]
  run_loop-Runs (suc fuel) a d l =
      one_round fuel a (handle_cmd host a).0 (handle_cmd host a).1 refl λ more.
        let (left, same) = handle_cmd-Rounds a fuel d l more in
        run_loop-Runs fuel (handle_cmd host a).1 (rw same d) left

  -- The loop of Run ends on every input whose scanner does not fail with the error for an empty
  -- line: run gives the result and the state with which the loop of the code ends, and the fuel does
  -- not show. The loops of its handlers end as well: on every input, the parser of a batch of pushes
  -- and that of a batch of fetches never run out of fuel.
  pub run-Runs :
      (a : GitAction T F L)
      → Distinct a.console.comm.input.fault
      → Runs a (run host a)
        × ((c : Communicator) → (receive_push_batch c).0 ≢ crash out_of_fuel)
        × ((c : Communicator) → (receive_fetch_batch host.out.git c).0 ≢ crash out_of_fuel)
  unfolding run
  run-Runs a d = (
    run_loop-Runs (suc (length a.console.comm.input.lines)) a d (omega arith),
    receive_push_batch-Ends,
    receive_fetch_batch-Ends host.out.git,
  )
