-- ===== src/Outcome/Rounds.antt =====
-- `for { ... }` as rounds that say whether they were the last, on fuel, and how such a loop runs
-- without fuel.
use gnoci.Base.{ℕ, zero, suc, ◌<◌, ◌≡◌, ◌≢◌, refl, Bool, true, false, arith}
use gnoci.Outcome.Failure.{Error}
use gnoci.Outcome.Returns.{
  Result, ok, err, crash, Crash, nil_map_write, nil_dereference, index_out_of_range, deadlock,
  out_of_fuel,
}
use gnoci.Outcome.Effects.{Action, pure, lift, continue, ◌>>=◌}

module _ {S : Type 0} (round : Action S Bool) where
  unfoldable pub rounds : ℕ → Action S (Unit {0})
  rounds zero = lift (crash out_of_fuel)
  rounds (suc fuel) = do done ← round; elim done [ true ↦ pure tt | false ↦ rounds fuel ]

  -- Finitely many rounds go on, and the last one stops the loop, fails, panics, or waits forever.
  pub data Finishes : S → Result (Unit {0}) × S → Type 0 where
    stops : {s t : S} → round s ≡ (ok true, t) → Finishes s (ok tt, t)
    fails : {s t : S} {e : Error} → round s ≡ (err e, t) → Finishes s (err e, t)
    waits : {s t : S} → round s ≡ (crash deadlock, t) → Finishes s (crash deadlock, t)
    panics : {s t : S} {k : Crash} → round s ≡ (crash k, t) → k ≢ deadlock → Finishes s (crash k, t)
    goes_on :
        {s t : S} {x : Result (Unit {0}) × S}
        → round s ≡ (ok false, t)
        → Finishes t x
        → Finishes s x

  one_round :
      (fuel : ℕ) (s : S) (r : Result Bool) (t : S)
      → round s ≡ (r, t)
      → (r ≡ ok false → Finishes t (rounds fuel t))
      → Finishes s (continue r (λ done. elim done [ true ↦ pure tt | false ↦ rounds fuel ]) t)
  unfolding pure
  one_round fuel s (ok true) t e more = stops e
  one_round fuel s (ok false) t e more = goes_on e (more refl)
  one_round fuel s (err x) t e more = fails e
  one_round fuel s (crash deadlock) t e more = waits e
  one_round fuel s (crash nil_map_write) t e more = panics e (λ h. cc)
  one_round fuel s (crash nil_dereference) t e more = panics e (λ h. cc)
  one_round fuel s (crash index_out_of_range) t e more = panics e (λ h. cc)
  one_round fuel s (crash out_of_fuel) t e more = panics e (λ h. cc)

  module _ (Inv : S → Type 0) (measure : S → ℕ) where
    -- A round that is not the last makes the measure smaller.
    pub rounds-Finishes :
        ((s : S)
          → Inv s
          → (round s).0 ≡ ok false
          → Inv (round s).1 × (measure (round s).1 < measure s))
        → (fuel : ℕ) (s : S) → Inv s
        → measure s < fuel
        → Finishes s (rounds fuel s)
    unfolding rounds ◌>>=◌
    rounds-Finishes less zero s i l = elim l [ ]
    rounds-Finishes less (suc fuel) s i l = one_round fuel s (round s).0 (round s).1 refl λ more.
        let (kept, smaller) = less s i more in
        rounds-Finishes less fuel (round s).1 kept (omega (arith, l, smaller))
