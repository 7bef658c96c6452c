-- ===== src/Progress.antt =====
-- The progress of a transfer (internal/progress): the reader that counts, and the goroutine that
-- sends what it has counted on each tick, with the goroutine that takes the messages.
--
-- An int has 64 bits; the counters are kept as their values modulo 2 ^ 64. The methods of the reader
-- take its lock, so each is one step.
pub mod Deltas
pub mod Closing
use gnoci.Base.{ℕ, ◌+◌, ◌%◌, ◌^◌, List, [], ◌∷◌, ◌++◌, ◌≡◌, Option, none, some}
use gnoci.Outcome.{Error}

pub record Reader : Type 0 where
  pub total : ℕ
  pub delta : ℕ
  pub err : Option Error

pub record Message : Type 0 where
  pub total : ℕ
  pub delta : ℕ

abbrev pub new_eval_read_closer : Reader
new_eval_read_closer = record { total = 0; delta = 0; err = none }

-- Read, where the wrapped reader gives this number of bytes and this error
unfoldable pub read : ℕ → Option Error → Reader → Reader
read n e r = record { total = (r.total + n) % 2 ^ 64; delta = (r.delta + n) % 2 ^ 64; err = e }

-- Progress: the message, the error, and the reader that is left
unfoldable pub progress : Reader → (Message × Option Error) × Reader
progress r = ((record { total = r.total; delta = r.delta }, r.err), record r { delta = 0 })

-- Where the ticker's goroutine stands: before its select, at the send, with the error that was read
-- along, or behind the loop, with the channel closed
pub data Phase : Type 0 where
  selecting : Phase
  sending : Message → Option Error → Phase
  closed : Phase

-- `taken` is what the other goroutine has received.
pub record Ticker : Type 0 where
  pub reader : Reader
  pub phase : Phase
  pub taken : List Message

abbrev pub new_ticker : Ticker
new_ticker = record { reader = new_eval_read_closer; phase = selecting; taken = [] }

abbrev pub sent : Option Error → Phase
sent none = selecting
sent (some e) = closed

-- The steps of the goroutine of NewTicker
pub data Moves : Ticker → Ticker → Type 0 where
  cancels : {t : Ticker} → t.phase ≡ selecting → Moves t (record t { phase = closed })
  ticks :
      {t : Ticker}
      → t.phase ≡ selecting
      → Moves t (record t {
        reader = (progress t.reader).1;
        phase = sending (progress t.reader).0.0 (progress t.reader).0.1;
      })
  delivers :
      {t : Ticker} {m : Message} {e : Option Error}
      → t.phase ≡ sending m e
      → Moves t (record t { phase = sent e; taken = t.taken ++ (m ∷ []) })

-- What can have happened once so many bytes were read
pub data Reach : ℕ → Ticker → Type 0 where
  begins : Reach 0 new_ticker
  reads :
      {bytes : ℕ} {t : Ticker} (n : ℕ) (e : Option Error)
      → Reach bytes t
      → Reach (bytes + n) (record t { reader = read n e t.reader })
  moves : {bytes : ℕ} {t u : Ticker} → Reach bytes t → Moves t u → Reach bytes u
