-- ===== src/Pipe.antt =====
-- What one program writes to a pipe, as the lines that the other one's scanner gives.
pub mod Writes
use gnoci.Base.{
  ℕ, ◌≡◌, refl, List, [], ◌∷◌, ◌++◌, Text, text_eq, nat_beq, ◌==◌, split, All, Bool-cases, inl, inr,
  cons_head, arith, append_assoc, list_beq, if◌then◌else◌,
}
use gnoci.Protocol.Words.{Lacks}

-- What a bufio.Scanner makes of the text that the other side has written: its lines, without a
-- carriage return at their end, and no line behind the last newline if nothing is there
unfoldable pub strip_return : Text → Text
strip_return [] = []
strip_return (c ∷ []) = if nat_beq c b'\r' then [] else c ∷ []
strip_return (c ∷ d ∷ t) = c ∷ strip_return (d ∷ t)

unfoldable pub strip_lines : List Text → List Text
unfolding strip_return
strip_lines [] = []
strip_lines (t ∷ []) = if t == [] then [] else strip_return t ∷ []
strip_lines (t ∷ u ∷ ts) = strip_return t ∷ strip_lines (u ∷ ts)

unfoldable pub scanned : Text → List Text
unfolding strip_lines
scanned t = strip_lines (split b'\n' t)

-- A text that is one line
pub record IsLine (t : Text) : Type 0 where
  pub no_newline : Lacks b'\n' t
  pub no_return : Lacks b'\r' t

-- Each text on a line of its own
abbrev pub joined : List Text → Text
joined [] = []
joined (t ∷ ts) = t ++ (b'\n' ∷ joined ts)

pub joined-append : (ts us : List Text) → joined (ts ++ us) ≡ joined ts ++ joined us
joined-append [] us = refl
joined-append (t ∷ ts) us = rw (joined-append ts us) (rw append_assoc)

strip_return-Lacks : (t : Text) → Lacks b'\r' t → strip_return t ≡ t
unfolding strip_return
strip_return-Lacks [] h = refl
strip_return-Lacks (c ∷ []) h = ground (arith, h.0)
strip_return-Lacks (c ∷ d ∷ t) h = rw (strip_return-Lacks (d ∷ t) h.1) refl

split-first : (sep : ℕ) (s t : Text) → Lacks sep s → split sep (s ++ (sep ∷ t)) ≡ s ∷ split sep t
unfolding split
split-first sep [] t h = ground arith
split-first sep (c ∷ s) t h = ground (arith, h.0, split-first sep s t h.1)

split-cons : (sep : ℕ) (t : Text) → (u : Text) × ((us : List Text) × (split sep t ≡ u ∷ us))
unfolding split cons_head
split-cons sep [] = ([], ([], refl))
split-cons sep (c ∷ t) =
    let (u, (us, e)) = split-cons sep t in
    elim (Bool-cases (nat_beq c sep)) [
      | inl same ↦ ([], (split sep t, rw same refl))
      | inr other ↦ (c ∷ u, (us, rw (other, e) refl))
    ]

nothing : strip_lines (split b'\n' []) ≡ []
unfolding strip_lines split list_beq
nothing = refl

-- The scanner gives back the lines that were written.
pub scanned-joined : (ts : List Text) → All IsLine ts → scanned (joined ts) ≡ ts
unfolding scanned strip_lines
scanned-joined [] h = nothing
scanned-joined (t ∷ ts) (here, rest) =
    let (u, (us, e)) = split-cons b'\n' (joined ts) in
    let later : strip_lines (u ∷ us) ≡ ts = rw e at (scanned-joined ts rest) in
    rw
      (
        split-first b'\n' t (joined ts) here.no_newline,
        e,
        strip_return-Lacks t here.no_return,
        later,
      )
      refl
