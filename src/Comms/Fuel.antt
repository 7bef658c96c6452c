-- ===== src/Comms/Fuel.antt =====
-- The loops that read a batch of requests end: every round but the last takes a line.
use mathlib.Core.Path.{subst}
use gnoci.Base.{
  ℕ, zero, suc, ◌<◌, ◌+◌, ◌⊎◌, List, [], ◌∷◌, ◌++◌, ◌≡◌, ◌≢◌, refl, sym, String, Text, Option, none,
  some, length, arith, Bool-cases, inl, inr, nat_eq, ◌==◌, text_eq, fields, split, has_prefix,
}
use gnoci.Outcome.{
  Result, ok, err, crash, out_of_fuel, Error, is, empty_request, wrap, bind, fail, pure, lift,
  continue, attempt, ◌>>=◌,
}
use gnoci.Plumbing.{GoGit}
use gnoci.Protocol.Commands
use gnoci.Protocol.Push.{parse_pair, parse_push_request}
use gnoci.Protocol.Fetch.{parse_fetch_request}
use gnoci.Comms.{
  Communicator, Writer, next, read_line, scan, stopped, some_fields, batch_step, batch_loop,
  batch_start, receive_batch, receive_push_batch, receive_fetch_batch,
}

-- One line read, or why there is none
abbrev Shape : Communicator → Type 0
Shape c =
    ((e : Error) × (t : Communicator) × (attempt next c ≡ (ok (err e), t)))
    ⊎ ((fs : List Text) × (t : Communicator) × (attempt next c ≡ (ok (ok fs), t))
        × (length t.input.lines < length c.input.lines))

next-Shape : (c : Communicator) → Shape c
unfolding next read_line scan stopped some_fields attempt ◌>>=◌
next-Shape c = known c.input.lines c.input.fault c.out c.previous
  where
    known :
        (lines : List Text) (fault : Option Error) (out : Writer) (previous : List Text)
        → Shape (record {
          input = record { lines = lines; fault = fault };
          out = out;
          previous = previous;
        })
    known [] none out previous = inl (_, _, refl)
    known [] (some x) out previous = inl (_, _, refl)
    known (line ∷ rest) fault out previous = words (fields line) refl
      where
        words :
            (fs : List Text)
            → fields line ≡ fs
            → Shape (record {
              input = record { lines = line ∷ rest; fault = fault };
              out = out;
              previous = previous;
            })
        words [] e = rw e (inl (_, _, refl))
        words (f ∷ fs) e = rw e (inr (f ∷ fs, _, refl, omega arith))

module _ {R : Type 0} (parse : List Text → Result R) (parsing empty_batch : String)
    (parses : (fs : List Text) → parse fs ≢ crash out_of_fuel) where
  abbrev Ends : Result (List R) → Type 0
  Ends r = r ≢ crash out_of_fuel

  go_on :
      (r : Result R) (more : R → Communicator → Result (List R) × Communicator) (c : Communicator)
      → r ≢ crash out_of_fuel
      → ((req : R) → Ends (more req c).0)
      → Ends (continue (wrap parsing [] r) more c).0
  go_on (ok req) more c alive ends h = ends req h
  go_on (err e) more c alive ends h = cc
  go_on (crash k) more c alive ends h = alive (let same : k ≡ out_of_fuel = cc in rw same refl)

  last_step :
      (e : Error) (reqs : List R) (size : ℕ)
      (more : R → Communicator → Result (List R) × Communicator) (c : Communicator)
      → Ends (batch_step parse parsing empty_batch (err e) reqs size more c).0
  unfolding batch_step fail pure
  last_step e reqs size more c h = elim (Bool-cases (is empty_request e)) [
    | inr n ↦ let k = rw n at h in cc
    | inl y ↦ elim (Bool-cases (size == 1)) [
      | inl one ↦ let k = rw (y, one) at h in cc
      | inr two ↦ let k = rw (y, two) at h in cc
    ]
  ]

  batch_loop-Ends :
      (fuel : ℕ) (reqs : List R) (size : ℕ) (c : Communicator)
      → length c.input.lines < fuel
      → Ends (batch_loop parse parsing empty_batch fuel reqs size c).0
  unfolding batch_loop batch_step lift ◌>>=◌
  batch_loop-Ends zero reqs size c l = elim l [ ]
  batch_loop-Ends (suc fuel) reqs size c l =
      let more =
        λ (req : R). batch_loop parse parsing empty_batch fuel (reqs ++ (req ∷ [])) (size + 1) in
      let step = λ (found : Result (List Text)).
        batch_step parse parsing empty_batch found reqs (size + 1) more in
      elim (next-Shape c) [
        | inl (e, t, at) ↦
            subst (λ q. Ends (continue q.0 step q.1).0) (sym at)
              (last_step e reqs (size + 1) more t)
        | inr (fs, t, at, shorter) ↦
            subst (λ q. Ends (continue q.0 step q.1).0) (sym at)
              (go_on (parse fs) more t (parses fs) (λ req.
                batch_loop-Ends fuel (reqs ++ (req ∷ [])) (size + 1) t (omega (arith, l, shorter))))
      ]

  batch_start-ends : (fs : List Text) → batch_start parse parsing empty_batch fs ≢ crash out_of_fuel
  unfolding batch_start
  batch_start-ends [] h = cc
  batch_start-ends (f ∷ fs) h = known (parse (f ∷ fs)) (parses (f ∷ fs)) h
    where
      known :
          (r : Result R)
          → r ≢ crash out_of_fuel
          → bind {B = List R × ℕ} r (λ req. ok (req ∷ [], 1)) ≢ crash out_of_fuel
      known (ok req) alive h = cc
      known (err e) alive h = cc
      known (crash k) alive h = alive (let same : k ≡ out_of_fuel = cc in rw same refl)

  receive_batch-Ends : (c : Communicator) → Ends (receive_batch parse parsing empty_batch c).0
  unfolding receive_batch
  receive_batch-Ends c =
      known (batch_start parse parsing empty_batch c.previous) (batch_start-ends c.previous)
    where
      known :
          (r : Result (List R × ℕ))
          → r ≢ crash out_of_fuel
          → Ends
              (continue r
                (λ start.
                  batch_loop parse parsing empty_batch (suc (length c.input.lines)) start.0 start.1)
                c).0
      known (ok (reqs, size)) alive h =
          batch_loop-Ends (suc (length c.input.lines)) reqs size c (omega arith) h
      known (err e) alive h = cc
      known (crash k) alive h = alive (let same : k ≡ out_of_fuel = cc in rw same refl)

parse_pair-ends : (pair : Text) (parts : List Text) → parse_pair pair parts ≢ crash out_of_fuel
unfolding parse_pair
parse_pair-ends pair [] h = cc
parse_pair-ends pair (x ∷ []) h = cc
parse_pair-ends pair (x ∷ y ∷ []) h = elim (Bool-cases (has_prefix x (b'+' ∷ []))) [
  | inl p ↦ let k = rw p at h in cc
  | inr n ↦ let k = rw n at h in cc
]
parse_pair-ends pair (x ∷ y ∷ z ∷ rest) h = cc

parse_push_request-ends : (fs : List Text) → parse_push_request fs ≢ crash out_of_fuel
unfolding parse_push_request
parse_push_request-ends [] h = cc
parse_push_request-ends (cmd ∷ []) h = cc
parse_push_request-ends (cmd ∷ pair ∷ rest) h = elim (Bool-cases (cmd == Commands.push)) [
  | inl y ↦ parse_pair-ends pair (split b':' pair) (rw y at h)
  | inr n ↦ let k = rw n at h in cc
]

parse_fetch_request-ends :
    (git : GoGit) (fs : List Text) → parse_fetch_request git fs ≢ crash out_of_fuel
unfolding parse_fetch_request
parse_fetch_request-ends git [] h = cc
parse_fetch_request-ends git (cmd ∷ []) h = cc
parse_fetch_request-ends git (cmd ∷ hash ∷ []) h = cc
parse_fetch_request-ends git (cmd ∷ hash ∷ name ∷ rest) h =
    elim (Bool-cases (cmd == Commands.fetch)) [
      | inl y ↦ let k = rw y at h in cc
      | inr n ↦ let k = rw n at h in cc
    ]

-- The parser of a batch of pushes does not run out of fuel.
pub receive_push_batch-Ends : (c : Communicator) → (receive_push_batch c).0 ≢ crash out_of_fuel
unfolding receive_push_batch
receive_push_batch-Ends = receive_batch-Ends parse_push_request _ _ parse_push_request-ends

pub receive_fetch_batch-Ends :
    (git : GoGit) (c : Communicator) → (receive_fetch_batch git c).0 ≢ crash out_of_fuel
unfolding receive_fetch_batch
receive_fetch_batch-Ends git =
    receive_batch-Ends (parse_fetch_request git) _ _ (parse_fetch_request-ends git)
