-- ===== src/Transfer/Checks.antt =====
-- What a list of checks reports.
use gnoci.Base.{
  ◌≡◌, refl, ◌↔◌, List, [], ◌∷◌, Option, none, some, Bool, true, false, ◌&&◌, ◌||◌, text_eq, arith,
}
use gnoci.Outcome.{Error, Sentinel, sentinel, is, join_all}
use gnoci.Transfer.{failures, headed}

-- errors.Is on what a method returns; nil is no error
abbrev pub reported : Sentinel → Option Error → Bool
reported s none = false
reported s (some e) = is s e

-- What can be wrong with a message: whether it is, and the sentinel that says so if there is one
abbrev pub Fault : Type 0
Fault = Bool × Option Sentinel

abbrev pub names : Option Sentinel → Sentinel → Bool
names none s = false
names (some t) s = is s (sentinel t)

abbrev pub fault_of : Sentinel → List Fault → Bool
fault_of s [] = false
fault_of s ((failed, said) ∷ faults) = (failed && names said s) || fault_of s faults

-- The error is nil when the message is accepted, and otherwise is, for errors.Is, every sentinel of
-- what is wrong and no other.
pub record Reports (Accepted : Type 0) (faults : List Fault) (e : Option Error) : Type 0 where
  pub nil : (e ≡ none) ↔ Accepted
  pub sentinels : (s : Sentinel) → reported s e ≡ fault_of s faults

abbrev pub any_failed : List (Bool × Error) → Bool
any_failed [] = false
any_failed ((failed, e) ∷ checks) = failed || any_failed checks

abbrev said : Sentinel → List (Bool × Error) → Bool
said s [] = false
said s ((failed, e) ∷ checks) = (failed && is s e) || said s checks

module _ (e : Error) where
  abbrev joined : Option Error → Option Error
  joined rest = elim rest [ none ↦ some e | some r ↦ some (Error.join e r) ]

  joined-reported :
      (s : Sentinel) (rest : Option Error) → reported s (joined rest) ≡ (is s e || reported s rest)
  joined-reported s none = ground arith
  joined-reported s (some r) = refl

  joined-some : (rest : Option Error) → ¬ (joined rest ≡ none)
  joined-some none h = cc
  joined-some (some r) h = cc

pub failures-nil :
    (checks : List (Bool × Error))
    → (join_all (failures checks) ≡ none) ↔ (any_failed checks ≡ false)
failures-nil [] = (λ h. refl, λ h. refl)
failures-nil ((true, e) ∷ checks) =
    (λ h. absurd (joined-some e (join_all (failures checks)) h), λ h. cc)
failures-nil ((false, e) ∷ checks) = failures-nil checks

pub failures-reported :
    (s : Sentinel) (checks : List (Bool × Error))
    → reported s (join_all (failures checks)) ≡ said s checks
failures-reported s [] = refl
failures-reported s ((true, e) ∷ checks) =
    rw (joined-reported e s (join_all (failures checks)), failures-reported s checks) refl
failures-reported s ((false, e) ∷ checks) = failures-reported s checks

-- With a first error for the whole list
pub headed-nil :
    (e : Error) (es : List Error) → (join_all (headed e es) ≡ none) ↔ (join_all es ≡ none)
headed-nil e [] = (λ h. h, λ h. h)
headed-nil e (x ∷ xs) =
    (λ h. absurd (joined-some e (join_all (x ∷ xs)) h), λ h. absurd (joined-some x (join_all xs) h))

pub headed-reported :
    (s : Sentinel) (e : Error) (es : List Error)
    → is s e ≡ false
    → reported s (join_all (headed e es)) ≡ reported s (join_all es)
headed-reported s e [] plain = refl
headed-reported s e (x ∷ xs) plain = rw (joined-reported e s (join_all (x ∷ xs)), plain) refl
