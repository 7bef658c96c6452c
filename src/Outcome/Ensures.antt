-- ===== src/Outcome/Ensures.antt =====
-- What holds after a method that succeeds, where its first steps keep what held before.
use mathlib.Core.Path.{subst}
use gnoci.Base.{◌≡◌, ap}
use gnoci.Outcome.Returns.{ok}
use gnoci.Outcome.Effects.{Action, ◌>>=◌, ◌>>◌}
use gnoci.Outcome.Keeps.{Keeps}
use gnoci.Outcome.Succeeds.{bind-succeeds}

pub record Ensures {S A : Type 0} (P Q : S → Type 0) (act : Action S A) : Type 0 where
  pub ensures : (s t : S) (a : A) → P s → act s ≡ (ok a, t) → Q t

module _ {S A B : Type 0} {P Q : S → Type 0} where
  pub Ensures-bind :
      (m : Action S A) (f : A → Action S B)
      → Keeps P m
      → ((a : A) → Ensures P Q (f a))
      → Ensures P Q (m >>= f)
  Ensures-bind m f k rest = record {
    ensures = λ s u b p h.
        let (a, (t, (first, last))) = bind-succeeds m f s u b h in
        (rest a).ensures t u b (subst P (ap (λ x. x.1) first) (k.after s p)) last;
  }

  pub Ensures-then :
      (m : Action S A) (n : Action S B) → Keeps P m → Ensures P Q n → Ensures P Q (m >> n)
  Ensures-then m n k rest = Ensures-bind m (λ _. n) k (λ _. rest)
