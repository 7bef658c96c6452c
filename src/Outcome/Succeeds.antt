-- ===== src/Outcome/Succeeds.antt =====
-- What a chain of methods that succeeds has done.
use gnoci.Base.{◌≡◌, ◌≢◌, ◌⊎◌, inl, inr, refl, sym, ap, ◌∙◌, String, List, Text}
use gnoci.Outcome.Failure.{Error}
use gnoci.Outcome.Returns.{Result, ok, err, crash, Crash, wrap-eq-ok}
use gnoci.Outcome.Effects.{
  Action, lift, gets, asks, attempt, caught, wrapping, within, continue, ◌>>=◌,
}

pub pairs : {A B : Type 0} {x : A × B} {a : A} {b : B} → x.0 ≡ a → x.1 ≡ b → x ≡ (a, b)
pairs p q = λ i. (p i, q i)

module _ {S A B : Type 0} where
  -- A chain that succeeds has succeeded at each link.
  pub bind-succeeds :
      (m : Action S A) (f : A → Action S B) (s u : S) (b : B)
      → (m >>= f) s ≡ (ok b, u)
      → (a : A) × ((t : S) × ((m s ≡ (ok a, t)) × (f a t ≡ (ok b, u))))
  unfolding ◌>>=◌
  bind-succeeds m f s u b h = known (m s).0 (m s).1 refl h
    where
      known :
          (r : Result A) (t : S)
          → m s ≡ (r, t)
          → continue r f t ≡ (ok b, u)
          → (a : A) × ((t : S) × ((m s ≡ (ok a, t)) × (f a t ≡ (ok b, u))))
      known (ok a) t e k = (a, (t, (e, k)))
      known (err x) t e k = cc
      known (crash c) t e k = cc

module _ {S A B : Type 0} where
  -- A chain that does not crash has failed at its first link, or goes on from there.
  pub bind-ends :
      (m : Action S A) (f : A → Action S B) (s u : S) (r : Result B)
      → (m >>= f) s ≡ (r, u)
      → ((k : Crash) → r ≢ crash k)
      → ((a : A) × ((t : S) × ((m s ≡ (ok a, t)) × (f a t ≡ (r, u)))))
        ⊎ ((e : Error) × (m s ≡ (err e, u)))
  unfolding ◌>>=◌
  bind-ends m f s u r h alive = known (m s).0 (m s).1 refl h
    where
      known :
          (q : Result A) (t : S)
          → m s ≡ (q, t)
          → continue q f t ≡ (r, u)
          → ((a : A) × ((t : S) × ((m s ≡ (ok a, t)) × (f a t ≡ (r, u)))))
            ⊎ ((e : Error) × (m s ≡ (err e, u)))
      known (ok a) t e k = inl (a, (t, (e, k)))
      known (err x) t e k = inr (x, e ∙ pairs refl (ap (λ y. y.1) k))
      known (crash c) t e k = absurd (alive c (sym (ap (λ y. y.0) k)))

pub ok-injective : {A : Type 0} {a b : A} → ok a ≡ ok b → a ≡ b
ok-injective h = cc

module _ {S A : Type 0} where
  -- What a link that succeeds has done
  pub wrapping-succeeds :
      (f : String) (args : List Text) (m : Action S A) (s u : S) (a : A)
      → wrapping f args m s ≡ (ok a, u)
      → m s ≡ (ok a, u)
  unfolding wrapping
  wrapping-succeeds f args m s u a h =
      let first = wrap-eq-ok f args (m s).0 (ap (λ x. x.0) h) in
      let second : (m s).1 ≡ u = ap (λ x. x.1) h in pairs first second

  pub lift-succeeds : (r : Result A) (s u : S) (a : A) → lift r s ≡ (ok a, u) → (r ≡ ok a) × (u ≡ s)
  unfolding lift
  lift-succeeds r s u a h = (ap (λ x. x.0) h, sym (ap (λ x. x.1) h))

  pub gets-succeeds : (f : S → A) (s u : S) (a : A) → gets f s ≡ (ok a, u) → (a ≡ f s) × (u ≡ s)
  unfolding gets
  gets-succeeds f s u a h = (sym (ok-injective (ap (λ x. x.0) h)), sym (ap (λ x. x.1) h))

module _ {S Q A : Type 0} (part : S → Q) (put : S → Q → S) where
  pub within-succeeds :
      (m : Action Q A) (s u : S) (a : A)
      → within part put m s ≡ (ok a, u)
      → (m (part s) ≡ (ok a, (m (part s)).1)) × (u ≡ put s (m (part s)).1)
  unfolding within
  within-succeeds m s u a h = (pairs (ap (λ x. x.0) h) refl, sym (ap (λ x. x.1) h))

caught-succeeds :
    {A : Type 0} (r found : Result A)
    → caught r ≡ ok found
    → (r ≡ found) × ((k : Crash) → found ≢ crash k)
caught-succeeds (ok a) found h = let same = ok-injective h in (same, λ k e. cc)
caught-succeeds (err x) found h = let same = ok-injective h in (same, λ k e. cc)
caught-succeeds (crash c) found h = cc

module _ {S A : Type 0} where
  pub asks-succeeds :
      (f : S → Result A) (s u : S) (a : A) → asks f s ≡ (ok a, u) → (f s ≡ ok a) × (u ≡ s)
  unfolding asks
  asks-succeeds f s u a h = (ap (λ x. x.0) h, sym (ap (λ x. x.1) h))

  -- An error that is taken as a value
  pub attempt-succeeds :
      (m : Action S A) (s u : S) (r : Result A)
      → attempt m s ≡ (ok r, u)
      → (m s ≡ (r, u)) × ((k : Crash) → r ≢ crash k)
  unfolding attempt
  attempt-succeeds m s u r h =
      let (same, no_crash) = caught-succeeds (m s).0 r (ap (λ x. x.0) h) in
      (pairs same (ap (λ x. x.1) h), no_crash)

  pub attempt-collects : (m : Action S A) (s : S) (e : Error) → ¬ ((attempt m s).0 ≡ err e)
  unfolding attempt
  attempt-collects m s e h = collects (m s).0 h
    where
      collects : (r : Result A) → ¬ (caught r ≡ err e)
      collects (ok a) h = cc
      collects (err x) h = cc
      collects (crash c) h = cc
