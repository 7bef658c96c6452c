-- ===== src/Outcome/Keeps.antt =====
-- Predicates that a method keeps however it ends, with a rule for each way to build a method.
use gnoci.Base.{◌≡◌, refl, Bool, true, false, String, List, [], ◌∷◌, Text, if◌then◌else◌}
use gnoci.Outcome.Failure.{Error}
use gnoci.Outcome.Returns.{Result, ok, err, crash}
use gnoci.Outcome.Effects.{
  Action, pure, fail, lift, gets, modify, wrapping, attempt, within, for_each, continue, asks,
  ◌>>=◌, ◌>>◌,
}

pub record Keeps {ℓ} {O X : Type ℓ} (Inv : O → Type ℓ) (act : Action O X) : Type ℓ where
  pub after : (o : O) → Inv o → Inv (act o).1

module _ {ℓ} {O X : Type ℓ} {Inv : O → Type ℓ} where
  pub Keeps-lift : (r : Result X) → Keeps Inv (lift r)
  unfolding lift
  Keeps-lift r = record { after = λ o held. held }

  pub Keeps-pure : (x : X) → Keeps Inv (pure x)
  unfolding pure
  Keeps-pure x = record { after = λ o held. held }

  pub Keeps-fail : (e : Error) → Keeps Inv (fail {A = X} e)
  unfolding fail
  Keeps-fail e = record { after = λ o held. held }

  pub Keeps-gets : (f : O → X) → Keeps Inv (gets f)
  unfolding gets
  Keeps-gets f = record { after = λ o held. held }

  pub Keeps-asks : (f : O → Result X) → Keeps Inv (asks f)
  unfolding asks
  Keeps-asks f = record { after = λ o held. held }

  pub Keeps-wrapping :
      (f : String) (args : List Text) (act : Action O X)
      → Keeps Inv act
      → Keeps Inv (wrapping f args act)
  unfolding wrapping
  Keeps-wrapping f args act k = record { after = λ o held. k.after o held }

  pub Keeps-attempt : (act : Action O X) → Keeps Inv act → Keeps Inv (attempt act)
  unfolding attempt
  Keeps-attempt act k = record { after = λ o held. k.after o held }

  pub Keeps-if :
      (b : Bool) (act alt : Action O X)
      → (b ≡ true → Keeps Inv act)
      → (b ≡ false → Keeps Inv alt)
      → Keeps Inv (if b then act else alt)
  Keeps-if true act alt ka kb = ka refl
  Keeps-if false act alt ka kb = kb refl

module _ {ℓ} {O : Type ℓ} {Inv : O → Type ℓ} where
  pub Keeps-modify : (f : O → O) → ((o : O) → Inv o → Inv (f o)) → Keeps Inv (modify f)
  unfolding modify
  Keeps-modify f k = record { after = k }

module _ {ℓ} {O X Y : Type ℓ} {Inv : O → Type ℓ} where
  pub Keeps-continue :
      (r : Result X) (f : X → Action O Y)
      → ((x : X) → r ≡ ok x → Keeps Inv (f x))
      → Keeps Inv (continue r f)
  Keeps-continue (ok x) f k = k x refl
  Keeps-continue (err e) f k = record { after = λ o held. held }
  Keeps-continue (crash c) f k = record { after = λ o held. held }

  pub Keeps-bind :
      (act : Action O X) (f : X → Action O Y)
      → Keeps Inv act
      → ((x : X) → Keeps Inv (f x))
      → Keeps Inv (act >>= f)
  unfolding ◌>>=◌
  Keeps-bind act f ka kf = record {
    after = λ o held.
        let (r, t) = act o in (Keeps-continue r f (λ x _. kf x)).after t (ka.after o held);
  }

  pub Keeps-then :
      (act : Action O X) (alt : Action O Y) → Keeps Inv act → Keeps Inv alt → Keeps Inv (act >> alt)
  Keeps-then act alt ka kb = Keeps-bind act (λ _. alt) ka (λ _. kb)

module _ {ℓ} {O X : Type ℓ} {Inv : O → Type ℓ} where
  pub Keeps-for_each :
      (xs : List X) (f : X → Action O (Unit {ℓ}))
      → ((x : X) → Keeps Inv (f x))
      → Keeps Inv (for_each xs f)
  unfolding for_each
  Keeps-for_each [] f k = Keeps-pure tt
  Keeps-for_each (x ∷ xs) f k =
      Keeps-bind (f x) (λ _. for_each xs f) (k x) (λ u. Keeps-for_each xs f k)

module _ {ℓ} {O Q X : Type ℓ} (part : O → Q) (put : O → Q → O) where
  -- What is said of the part
  pub Keeps-part :
      (R : Q → Type ℓ) (act : Action Q X)
      → Keeps R act
      → ((o : O) (q : Q) → R q → R (part (put o q)))
      → Keeps (λ o. R (part o)) (within part put act)
  unfolding within
  Keeps-part R act k back = record {
    after = λ o held. back o (act (part o)).1 (k.after (part o) held);
  }

  -- What is said of the rest of the object
  pub Keeps-beside :
      (Inv : O → Type ℓ) (act : Action Q X)
      → ((o : O) (q : Q) → Inv o → Inv (put o q))
      → Keeps Inv (within part put act)
  unfolding within
  Keeps-beside Inv act same = record { after = λ o held. same o (act (part o)).1 held }

pub ruleset keeps_rules = (
  Keeps-lift, Keeps-pure, Keeps-fail, Keeps-gets, Keeps-asks, Keeps-modify, Keeps-wrapping,
  Keeps-attempt, Keeps-if, Keeps-bind, Keeps-then, Keeps-for_each,
)
