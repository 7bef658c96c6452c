-- ===== src/Protocol/Words.antt =====
-- How strings.Fields and strings.Split read text that is put together from words.
use gnoci.Base.{
  ℕ, List, [], ◌∷◌, ◌++◌, ◌≡◌, ◌≢◌, refl, ◌∙◌, false, Text, All, arith, is_space, flush,
  fields_from, fields, split, nat_beq, nat_beq_iff, Bool-cases, inl, inr, true, append-nil,
  append_assoc,
}

-- No character of the text is a space.
abbrev pub IsWord : Text → Type 0
IsWord t = All (λ c. is_space c ≡ false) t

-- The separator does not occur.
abbrev pub Lacks : ℕ → Text → Type 0
Lacks sep t = All (λ c. nat_beq c sep ≡ false) t

-- A blank is not in a word.
pub IsWord-Lacks : (sep : ℕ) (t : Text) → is_space sep ≡ true → IsWord t → Lacks sep t
IsWord-Lacks sep [] blank h = tt
IsWord-Lacks sep (c ∷ t) blank h = (
  elim (Bool-cases (nat_beq c sep)) [
    | inl same ↦ absurd (differ c ((nat_beq_iff c sep).0 same) h.0)
    | inr other ↦ other
  ],
  IsWord-Lacks sep t blank h.1,
)
  where
    differ : (d : ℕ) → d ≡ sep → is_space d ≡ false → ⊥
    differ d e n = cc

fields_from-word :
    (t cur rest : Text) → IsWord t → fields_from cur (t ++ rest) ≡ fields_from (cur ++ t) rest
unfolding fields_from
fields_from-word [] cur rest h = rw append-nil
fields_from-word (c ∷ t) cur rest h =
    rw (h.0) (fields_from-word t (cur ++ c ∷ []) rest h.1 ∙ rw append_assoc)

flush-word : (t : Text) (rest : List Text) → t ≢ [] → flush t rest ≡ t ∷ rest
unfolding flush
flush-word [] rest h = absurd (h refl)
flush-word (c ∷ t) rest h = refl

-- A word with a blank behind it is the first field.
pub fields-word :
    (t rest : Text) → IsWord t → t ≢ [] → fields (t ++ (b' ' ∷ rest)) ≡ t ∷ fields rest
unfolding fields fields_from is_space
fields-word t rest h n =
    fields_from-word t [] (b' ' ∷ rest) h ∙ flush-word t (fields_from [] rest) n

fields_from-last : (t cur : Text) → IsWord t → fields_from cur t ≡ flush (cur ++ t) []
unfolding fields_from
fields_from-last [] cur h = rw append-nil
fields_from-last (c ∷ t) cur h = rw (h.0) (fields_from-last t (cur ++ c ∷ []) h.1 ∙ rw append_assoc)

pub fields-last : (t : Text) → IsWord t → t ≢ [] → fields t ≡ t ∷ []
unfolding fields
fields-last t h n = fields_from-last t [] h ∙ flush-word t [] n

pub split-Lacks : (sep : ℕ) (t : Text) → Lacks sep t → split sep t ≡ t ∷ []
unfolding split
split-Lacks sep [] h = refl
split-Lacks sep (c ∷ t) h = ground (arith, h.0, split-Lacks sep t h.1)

pub split-pair :
    (sep : ℕ) (s t : Text) → Lacks sep s → Lacks sep t → split sep (s ++ (sep ∷ t)) ≡ s ∷ t ∷ []
unfolding split
split-pair sep [] t hs ht = ground (arith, split-Lacks sep t ht)
split-pair sep (c ∷ s) t hs ht = ground (arith, hs.0, split-pair sep s t hs.1 ht)
