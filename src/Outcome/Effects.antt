-- ===== src/Outcome/Effects.antt =====
-- A method: it takes the object's state to its result and the state that it leaves behind,
-- whichever way it ends. The combinators are shut, for the rules of Keeps; opening `◌>>=◌` opens
-- them all.
use gnoci.Base.{String, List, [], ◌∷◌, Text}
use gnoci.Outcome.Failure.{Error}
use gnoci.Outcome.Returns.{Result, ok, err, crash, wrap}

abbrev pub Action {ℓ} : Type ℓ → Type ℓ → Type ℓ
Action S A = S → Result A × S

abbrev pub caught {ℓ} : {A : Type ℓ} → Result A → Result (Result A)
caught (ok a) = ok (ok a)
caught (err e) = ok (err e)
caught (crash c) = crash c

module _ {ℓ} {S A : Type ℓ} where
  unfoldable pub pure : A → Action S A
  pure a s = (ok a, s)

  unfoldable pub fail : Error → Action S A
  fail e s = (err e, s)

  unfoldable pub lift : Result A → Action S A
  lift r s = (r, s)

  unfoldable pub gets : (S → A) → Action S A
  gets f s = (ok (f s), s)

  -- A call that only reads the state
  unfoldable pub asks : (S → Result A) → Action S A
  asks f s = (f s, s)

  -- The error, if any, is wrapped; the state stays as the call left it.
  unfoldable pub wrapping : String → List Text → Action S A → Action S A
  wrapping f args m s = let (r, t) = m s in (wrap f args r, t)

  -- The error as a value: `a, err := m`
  unfoldable pub attempt : Action S A → Action S (Result A)
  attempt m s = let (r, t) = m s in (caught r, t)

module _ {ℓ} {S : Type ℓ} where
  unfoldable pub modify : (S → S) → Action S (Unit {ℓ})
  modify f s = (ok tt, f s)

-- A method of a part of the object.
module _ {ℓ} {S Q A : Type ℓ} where
  unfoldable pub within : (S → Q) → (S → Q → S) → Action Q A → Action S A
  within part put m s = let (r, q) = m (part s) in (r, put s q)

module _ {ℓ} {S A B : Type ℓ} where
  abbrev pub continue : Result A → (A → Action S B) → Action S B
  continue (ok a) f s = f a s
  continue (err e) f s = (err e, s)
  continue (crash c) f s = (crash c, s)

  infixl 5 ◌>>=◌ ◌>>◌
  unfoldable pub ◌>>=◌ : Action S A → (A → Action S B) → Action S B
  unfolding pure fail lift gets asks modify wrapping attempt within
  ◌>>=◌ m f s = let (r, t) = m s in continue r f t

  abbrev pub ◌>>◌ : Action S A → Action S B → Action S B
  m >> n = m >>= λ _. n

-- `for _, x := range xs { if err := f(x); err != nil { return err } }`
unfoldable pub for_each {ℓ} :
    {S A : Type ℓ} → List A → (A → Action S (Unit {ℓ})) → Action S (Unit {ℓ})
for_each [] f = pure tt
for_each (x ∷ xs) f = let rest = for_each xs f in f x >> rest
