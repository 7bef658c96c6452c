-- ===== src/Progress/Deltas.antt =====
-- What the messages add up to.
use gnoci.Base.{ℕ, ◌+◌, ◌^◌, ◌<◌, List, [], ◌∷◌, ◌++◌, ◌≡◌, refl, Option, none, some, arith}
use gnoci.Outcome.{Error}
use gnoci.Progress.{
  Message, read, progress, Phase, sending, sent, Ticker, Moves, cancels, ticks, delivers, Reach,
  begins, reads, moves,
}

-- The messages up to the one that is being sent
abbrev pub messages_of : Phase → List Message → List Message
messages_of (sending m e) taken = taken ++ (m ∷ [])
messages_of _ taken = taken

abbrev pub messages : Ticker → List Message
messages t = messages_of t.phase t.taken

messages_of-sent : (e : Option Error) (ms : List Message) → messages_of (sent e) ms ≡ ms
messages_of-sent none ms = refl
messages_of-sent (some e) ms = refl

-- The total of the last message
abbrev pub last_total : ℕ → List Message → ℕ
last_total n [] = n
last_total n (m ∷ ms) = last_total m.total ms

-- Each message's delta is the difference between its total and the one before.
abbrev pub Chained : ℕ → List Message → Type 0
Chained n [] = Unit
Chained n (m ∷ ms) = (n + m.delta ≡ m.total) × Chained m.total ms

last_total-append :
    (n : ℕ) (ms : List Message) (m : Message) → last_total n (ms ++ (m ∷ [])) ≡ m.total
last_total-append n [] m = refl
last_total-append n (x ∷ ms) m = last_total-append x.total ms m

Chained-append :
    (n : ℕ) (ms : List Message) (m : Message)
    → Chained n ms
    → last_total n ms + m.delta ≡ m.total
    → Chained n (ms ++ (m ∷ []))
Chained-append n [] m c h = (h, tt)
Chained-append n (x ∷ ms) m (first, rest) h = (first, Chained-append x.total ms m rest h)

-- What holds as long as the number of bytes fits
pub record IsCounted (bytes : ℕ) (t : Ticker) : Type 0 where
  pub all_read : t.reader.total ≡ bytes
  pub chained : Chained 0 (messages t)
  pub rest : last_total 0 (messages t) + t.reader.delta ≡ bytes

Moves-IsCounted : (bytes : ℕ) (t u : Ticker) → IsCounted bytes t → Moves t u → IsCounted bytes u
unfolding progress
Moves-IsCounted bytes t u c (cancels e) = record {
  all_read = c.all_read;
  chained = rw e at c.chained;
  rest = rw e at c.rest;
}
Moves-IsCounted bytes t u c (ticks e) =
    let last : last_total 0 t.taken + t.reader.delta ≡ bytes = rw e at c.rest in
    let total = c.all_read in
    let m : Message = record { total = t.reader.total; delta = t.reader.delta } in
    record {
      all_read = c.all_read;
      chained = Chained-append 0 t.taken m (rw e at c.chained) (omega (arith, last, total));
      rest = omega (arith, last_total-append 0 t.taken m, total);
    }
Moves-IsCounted bytes t u c (delivers {m} {e} going) = record {
  all_read = c.all_read;
  chained = rw (messages_of-sent e (t.taken ++ (m ∷ []))) (rw going at c.chained);
  rest = rw (messages_of-sent e (t.taken ++ (m ∷ []))) (rw going at c.rest);
}

-- In every state that is reached with fewer than 2 ^ 63 bytes read, the reader's total is the number
-- of bytes, the delta of each message is the difference between its total and the total of the message
-- before it, or 0 for the first, and the last total with what the reader has counted since is the
-- number of bytes.
pub Reach-IsCounted : (bytes : ℕ) (t : Ticker) → Reach bytes t → bytes < 2 ^ 63 → IsCounted bytes t
unfolding read
Reach-IsCounted bytes t begins fits = record { all_read = refl; chained = tt; rest = refl }
Reach-IsCounted bytes t (reads {bytes = before} {t = s} n e r) fits =
    let c = Reach-IsCounted before s r (omega (arith, fits)) in
    record {
      all_read = omega (arith, c.all_read, fits);
      chained = c.chained;
      rest = omega (arith, c.rest, fits);
    }
Reach-IsCounted bytes t (moves {t = s} r step) fits =
    Moves-IsCounted bytes s t (Reach-IsCounted bytes s r fits) step
