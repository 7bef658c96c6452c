-- ===== src/Base/Dict.antt =====
-- A Go map with text keys. `none` is the nil map: it reads as empty, and a write to it panics.
-- A range loop visits the entries in the order of the list.
use gnoci.Base.Tests.{if◌then◌else◌}
use gnoci.Base.Equality.{◌==◌}
use gnoci.Base.Strings.{Text, text_eq}
use mathlib.Core.Path.{◌≡◌, refl}
use mathlib.Core.Option.{Option, none, some}
use mathlib.Core.List.{List, [], ◌∷◌}
use native.Mathlib.Omega.{arith}

abbrev pub Dict {ℓ} : Type ℓ → Type ℓ
Dict V = List (Text × V)

module _ {ℓ} {V : Type ℓ} where
  unfoldable pub lookup : Text → Dict V → Option V
  lookup key [] = none
  lookup key ((other, value) ∷ dict) = if other == key then some value else lookup key dict

  unfoldable pub insert : Text → V → Dict V → Dict V
  insert key value [] = (key, value) ∷ []
  insert key value ((other, old) ∷ dict) =
      if other == key then (key, value) ∷ dict else (other, old) ∷ insert key value dict

  unfoldable pub erase : Text → Dict V → Dict V
  erase key [] = []
  erase key ((other, old) ∷ dict) =
      let rest = erase key dict in if other == key then rest else (other, old) ∷ rest

  abbrev pub entries : Option (Dict V) → Dict V
  entries none = []
  entries (some dict) = dict

  pub lookup-insert :
      (key other : Text) (value : V) (dict : Dict V)
      → lookup other (insert key value dict)
        ≡ (if key == other then some value else lookup other dict)
  unfolding lookup insert
  lookup-insert key other value [] = refl
  lookup-insert key other value ((third, old) ∷ dict) = ground (
    arith,
    text_eq.beq_iff key other,
    text_eq.beq_iff third key,
    text_eq.beq_iff third other,
    lookup-insert key other value dict,
  )

  pub lookup-erase :
      (key other : Text) (dict : Dict V)
      → lookup other (erase key dict) ≡ (if key == other then none else lookup other dict)
  unfolding lookup erase
  lookup-erase key other [] = ground arith
  lookup-erase key other ((third, old) ∷ dict) = ground (
    arith,
    text_eq.beq_iff key other,
    text_eq.beq_iff third key,
    text_eq.beq_iff third other,
    lookup-erase key other dict,
  )
