-- ===== src/Base/Strings.antt =====
-- Go's text as the list of its code points, and what the code uses of the packages strings
-- and strconv.
use Prim.Native.Nat.{ℕ, zero, suc, ◌+◌, ◌-◌, ◌*◌, ◌/◌, ◌%◌, ◌^◌}
use Prim.Native.Char.{code}
use Prim.Native.String.{String}
use mathlib.Core.Bool.{Bool, true, false, ◌&&◌, ◌||◌}
use mathlib.Core.Option
use mathlib.Core.Option.{Option, none, some}
use mathlib.Core.List.{List, [], ◌∷◌, ◌++◌}
use gnoci.Base.Tests.{nat_beq, leb, if◌then◌else◌}
use gnoci.Base.Equality.{Eq, nat_eq, list_beq, list_beq_iff}
use gnoci.Base.Int.{ℤ, pos, neg_ℕ}

abbrev pub Text : Type 0
Text = List ℕ

instance abbrev pub text_eq : Eq Text
text_eq = record { beq = list_beq; beq_iff = list_beq_iff }

abbrev pub text : String → Text
text String.[] = []
text (String.◌∷◌ c s) = code c ∷ text s

-- unicode.IsSpace
unfoldable pub is_space : ℕ → Bool
is_space c =
    nat_beq c 0x20
    || (leb 0x09 c && leb c 0x0d)
    || nat_beq c 0x85
    || nat_beq c 0xa0
    || nat_beq c 0x1680
    || (leb 0x2000 c && leb c 0x200a)
    || nat_beq c 0x2028
    || nat_beq c 0x2029
    || nat_beq c 0x202f
    || nat_beq c 0x205f
    || nat_beq c 0x3000

unfoldable pub flush : Text → List Text → List Text
flush [] rest = rest
flush (c ∷ cs) rest = (c ∷ cs) ∷ rest

-- The scan of strings.Fields, with the field that is being read.
unfoldable pub fields_from : Text → Text → List Text
unfolding flush
fields_from cur [] = flush cur []
fields_from cur (c ∷ s) =
    let rest = fields_from (if is_space c then [] else cur ++ c ∷ []) s in
    if is_space c then flush cur rest else rest

-- strings.Fields
unfoldable pub fields : Text → List Text
unfolding fields_from
fields s = fields_from [] s

unfoldable pub cons_head : ℕ → List Text → List Text
cons_head c [] = (c ∷ []) ∷ []
cons_head c (t ∷ ts) = (c ∷ t) ∷ ts

-- strings.Split at a separator of one character
unfoldable pub split : ℕ → Text → List Text
unfolding cons_head
split sep [] = [] ∷ []
split sep (c ∷ s) = let rest = split sep s in if nat_beq c sep then [] ∷ rest else cons_head c rest

-- strings.HasPrefix
unfoldable pub has_prefix : Text → Text → Bool
has_prefix s [] = true
has_prefix [] (p ∷ ps) = false
has_prefix (c ∷ s) (p ∷ ps) = nat_beq c p && has_prefix s ps

abbrev pub drop_text : Text → Text → Text
drop_text [] s = s
drop_text (p ∷ ps) [] = []
drop_text (p ∷ ps) (c ∷ s) = drop_text ps s

-- strings.TrimPrefix
unfoldable pub trim_prefix : Text → Text → Text
unfolding has_prefix
trim_prefix s p = if has_prefix s p then drop_text p s else s

unfoldable pub digits_value : ℕ → Text → Option ℕ
digits_value n [] = some n
digits_value n (c ∷ s) =
    let rest = digits_value (n * 10 + (c - 48)) s in if leb 48 c && leb c 57 then rest else none

-- The digits of a number, at least one, of a value up to the limit.
unfoldable pub number : ℕ → Text → Option ℕ
unfolding digits_value
number limit [] = none
number limit (c ∷ s) = elim (digits_value 0 (c ∷ s)) [
  | none ↦ none
  | some n ↦ if leb n limit then some n else none
]

-- strconv.Atoi, where int has 64 bits
unfoldable pub atoi : Text → Option ℤ
unfolding number
atoi [] = none
atoi (c ∷ s) =
    if nat_beq c b'-'
    then Option.map neg_ℕ (number (2 ^ 63) s)
    else if nat_beq c b'+'
    then Option.map pos (number (2 ^ 63 - 1) s)
    else Option.map pos (number (2 ^ 63 - 1) (c ∷ s))

-- The last element of a path with no slash at its end
last_element : Text → Text → Text
last_element cur [] = cur
last_element cur (c ∷ s) = last_element (if nat_beq c b'/' then [] else cur ++ c ∷ []) s

drop_slashes : Text → Text
drop_slashes [] = []
drop_slashes (c ∷ s) =
    let rest = drop_slashes s in if nat_beq c b'/' && list_beq rest [] then [] else c ∷ rest

-- filepath.Base on a path of slashes
unfoldable pub base_name : Text → Text
unfolding last_element drop_slashes list_beq
base_name [] = text "."
base_name (c ∷ s) = elim (drop_slashes (c ∷ s)) [ [] ↦ text "/" | d ∷ t ↦ last_element [] (d ∷ t) ]

decimal_onto : ℕ → ℕ → Text → Text
decimal_onto zero n out = out
decimal_onto (suc fuel) n out =
    let digit = (48 + n % 10) ∷ out in
    let more = decimal_onto fuel (n / 10) digit in if nat_beq (n / 10) 0 then digit else more

-- %d; a number has at most as many digits as its value plus one.
unfoldable pub decimal : ℕ → Text
unfolding decimal_onto
decimal n = decimal_onto (suc n) n []
