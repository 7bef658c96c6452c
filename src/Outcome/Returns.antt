-- ===== src/Outcome/Returns.antt =====
-- The end of a call. A crash is a panic of the Go runtime or a wait that never ends; `out_of_fuel`
-- marks a model loop that stopped before the loop of the code would.
use gnoci.Base.{◌≡◌, refl, ◌⊎◌, inl, inr, String, List, Text, Bool, true, false}
use gnoci.Outcome.Failure.{Error, wrapf}

pub data Crash : Type 0 where
  nil_map_write nil_dereference index_out_of_range deadlock out_of_fuel : Crash

pub data Result {ℓ} (A : Type ℓ) : Type ℓ where
  ok : A → Result A
  err : Error → Result A
  crash : Crash → Result A

abbrev pub bind {ℓ κ} : {A : Type ℓ} {B : Type κ} → Result A → (A → Result B) → Result B
bind (ok a) f = f a
bind (err e) f = err e
bind (crash c) f = crash c

-- `if err != nil { return fmt.Errorf(f, args, err) }`
abbrev pub wrap {ℓ} : {A : Type ℓ} → String → List Text → Result A → Result A
wrap f args (ok a) = ok a
wrap f args (err e) = err (wrapf f args e)
wrap f args (crash c) = crash c

-- The test `err == nil`
abbrev pub is_ok {ℓ} : {A : Type ℓ} → Result A → Bool
is_ok (ok a) = true
is_ok _ = false

module _ {ℓ κ} {A : Type ℓ} {B : Type κ} where
  pub bind-eq-ok :
      (m : Result A) (go : A → Result B) {last : B}
      → bind m go ≡ ok last
      → (first : A) × (m ≡ ok first) × (go first ≡ ok last)
  bind-eq-ok (ok a) go h = (a, refl, h)
  bind-eq-ok (err e) go h = cc
  bind-eq-ok (crash c) go h = cc

module _ {ℓ} {A : Type ℓ} where
  pub wrap-eq-ok :
      (f : String) (args : List Text) (m : Result A) {a : A} → wrap f args m ≡ ok a → m ≡ ok a
  wrap-eq-ok f args (ok b) h = h
  wrap-eq-ok f args (err e) h = cc
  wrap-eq-ok f args (crash c) h = cc

  -- To split on how a call ends and keep the equation
  pub Result-cases :
      (r : Result A)
      → ((a : A) × (r ≡ ok a)) ⊎ (((e : Error) × (r ≡ err e)) ⊎ ((c : Crash) × (r ≡ crash c)))
  Result-cases (ok a) = inl (a, refl)
  Result-cases (err e) = inr (inl (e, refl))
  Result-cases (crash c) = inr (inr (c, refl))
