-- ===== src/HttpLog/Memory.antt =====
-- Objects that are shared by pointers. A pointer is the place of its object; an object is new at the
-- first place that is free.
use gnoci.Base.{ℕ, suc, ◌<◌, ◌≤◌, ◌≡◌, refl, Option, none, some, nat_beq, if◌then◌else◌, arith}

pub record Cells (A : Type 0) : Type 0 where
  pub next : ℕ
  pub at : ℕ → A

module _ {A : Type 0} where
  unfoldable pub put : ℕ → A → Cells A → Cells A
  put place a cells = record cells { at = λ p. if nat_beq p place then a else cells.at p }

  unfoldable pub allocate : A → Cells A → Cells A
  unfolding put
  allocate a cells = record (put cells.next a cells) { next = suc cells.next }

  -- What a pointer points to; `none` is nil.
  abbrev pub content : Cells A → Option ℕ → Option A
  content cells none = none
  content cells (some p) = some (cells.at p)

  -- No object that was there is another one, or has another value.
  pub record Same (before after : Cells A) : Type 0 where
    pub grown : before.next ≤ after.next
    pub same_at : (p : ℕ) → p < before.next → after.at p ≡ before.at p

  pub Same-put :
      (before after : Cells A) (place : ℕ) (a : A)
      → before.next ≤ place
      → Same before after
      → Same before (put place a after)
  unfolding put
  Same-put before after place a h same = record {
    grown = same.grown;
    same_at = λ p l. ground (arith, same.same_at p l);
  }

  pub Same-allocate :
      (before after : Cells A) (a : A) → Same before after → Same before (allocate a after)
  unfolding allocate put
  Same-allocate before after a same = record {
    grown = omega (arith, same.grown);
    same_at = λ p l. ground (arith, same.grown, same.same_at p l);
  }

  pub Same-refl : (cells : Cells A) → Same cells cells
  Same-refl cells = record { grown = omega arith; same_at = λ p l. refl }

  pub at-put : (place : ℕ) (a : A) (cells : Cells A) → (put place a cells).at place ≡ a
  unfolding put
  at-put place a cells = ground arith

  pub at-allocate : (a : A) (cells : Cells A) → (allocate a cells).at cells.next ≡ a
  unfolding allocate put
  at-allocate a cells = ground arith

  pub at-allocate_copy : (p : ℕ) (cells : Cells A) → (allocate (cells.at p) cells).at p ≡ cells.at p
  unfolding allocate put
  at-allocate_copy p cells = ground arith
