-- ===== src/Progress/Closing.antt =====
-- When the ticker closes its channel.
use gnoci.Base.{ℕ, ◌<◌, ◌≡◌, refl, ◌⊎◌, inl, inr, none, some, arith}
use gnoci.Outcome.{Error}
use gnoci.Progress.{
  progress, Phase, selecting, sending, closed, Ticker, Moves, cancels, ticks, delivers,
}

-- How many moves are left at most, once reading has failed
abbrev pub moves_left : Phase → ℕ
moves_left closed = 0
moves_left (sending m (some e)) = 1
moves_left selecting = 2
moves_left (sending m none) = 3

-- Once reading has failed, nothing but the end can come of the ticker.
pub record IsEnding (t : Ticker) : Type 0 where
  pub goes_on : (t.phase ≡ closed) ⊎ ((u : Ticker) × Moves t u)
  pub gets_closer :
      (u : Ticker)
      → Moves t u
      → (moves_left u.phase < moves_left t.phase) × (u.reader.err ≡ t.reader.err)

can_move : (t : Ticker) (p : Phase) → t.phase ≡ p → (t.phase ≡ closed) ⊎ ((u : Ticker) × Moves t u)
can_move t closed e = inl e
can_move t selecting e = inr (_, ticks e)
can_move t (sending m x) e = inr (_, delivers e)

closer :
    (t u : Ticker) (x : Error)
    → t.reader.err ≡ some x
    → Moves t u
    → (moves_left u.phase < moves_left t.phase) × (u.reader.err ≡ t.reader.err)
unfolding progress
closer t u x failed (cancels e) = (rw e (omega arith), refl)
closer t u x failed (ticks e) = (rw (e, failed) (omega arith), refl)
closer t u x failed (delivers {m} {e = none} e) = (rw e (omega arith), refl)
closer t u x failed (delivers {m} {e = some y} e) = (rw e (omega arith), refl)

-- Once the reader's last read has returned an error, as it does at the end of the file, the ticker
-- closes its channel after at most three moves, whatever they are: until it is closed some move is
-- possible, and each move makes the number that is left smaller and leaves the error.
pub failed-IsEnding : (t : Ticker) (x : Error) → t.reader.err ≡ some x → IsEnding t
failed-IsEnding t x failed = record {
  goes_on = can_move t t.phase refl;
  gets_closer = λ u step. closer t u x failed step;
}
