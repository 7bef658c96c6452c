-- ===== src/Comms/Batches.antt =====
-- A batch of requests on the wire: lines with one request each, and the blank line behind them.
use gnoci.Base.{
  ℕ, zero, suc, ◌+◌, ◌<◌, List, [], ◌∷◌, ◌++◌, ◌≡◌, ◌≢◌, refl, ◌∙◌, String, Text, length, fields,
  arith, append-nil, append_assoc, length-append, text_eq, list_beq, contains,
}
use gnoci.Outcome.{Result, ok, Action, ◌>>=◌, ◌>>◌}
use gnoci.Protocol.Commands
use gnoci.Protocol.Commands.{supported_command}
use gnoci.Protocol.Push.{PushRequest, parse_push_request}
use gnoci.Comms.{
  Communicator, next, some_fields, batch_start, batch_loop, receive_batch, receive_push_batch,
  look_ahead,
}

-- The same communicator before these lines
abbrev pub before : Communicator → List Text → Communicator
before c lines = record c { input = record { lines = lines; fault = c.input.fault } }

next-before :
    (c : Communicator) (line : Text) (lines : List Text)
    → next (before c (line ∷ lines)) ≡ (some_fields (fields line), before c lines)
unfolding next ◌>>=◌
next-before c line lines = refl

some_fields-ok : (fs : List Text) → fs ≢ [] → some_fields fs ≡ ok fs
unfolding some_fields
some_fields-ok [] h = absurd (h refl)
some_fields-ok (f ∷ fs) h = refl

module _ {R : Type 0} (parse : List Text → Result R) (parsing empty_batch : String) where
  -- Each line holds the request beside it.
  abbrev pub Parses : List Text → List R → Type 0
  Parses [] [] = Unit
  Parses (line ∷ lines) (req ∷ reqs) =
      (parse (fields line) ≡ ok req) × (fields line ≢ []) × Parses lines reqs
  Parses _ _ = ⊥

  batch_loop-Parses :
      (lines : List Text) (reqs acc : List R) (size fuel : ℕ) (c : Communicator) (blank : Text)
      (rest : List Text)
      → Parses lines reqs
      → fields blank ≡ []
      → 0 < size + length lines
      → length lines < fuel
      → batch_loop parse parsing empty_batch fuel acc size (before c (lines ++ (blank ∷ rest)))
        ≡ (ok (acc ++ reqs), before c rest)
  unfolding batch_loop next ◌>>=◌
  batch_loop-Parses lines reqs acc size zero c blank rest p b s f = elim f [ ]
  batch_loop-Parses [] [] acc size (suc fuel) c blank rest p b s f =
      ground (arith, b, append-nil acc)
  batch_loop-Parses (line ∷ lines) (req ∷ reqs) acc size (suc fuel) c blank rest p b s f =
      rw (some_fields-ok (fields line) p.1, p.0)
        (batch_loop-Parses lines reqs (acc ++ req ∷ []) (size + 1) fuel c blank rest p.2 b
            (omega arith) (omega arith)
          ∙ rw append_assoc)
  batch_loop-Parses [] (_ ∷ _) acc size (suc fuel) c blank rest p b s f = elim p [ ]
  batch_loop-Parses (_ ∷ _) [] acc size (suc fuel) c blank rest p b s f = elim p [ ]

  -- The batch begins with the line that was looked at, which is in `previous` already.
  receive_batch-looked :
      (f : Text) (fs : List Text) (lines : List Text) (req : R) (reqs : List R) (c : Communicator)
      (blank : Text) (rest : List Text)
      → parse (f ∷ fs) ≡ ok req
      → Parses lines reqs
      → fields blank ≡ []
      → receive_batch parse parsing empty_batch
          (record (before c (lines ++ (blank ∷ rest))) { previous = f ∷ fs })
        ≡ (ok (req ∷ reqs), record (before c rest) { previous = [] })
  unfolding receive_batch batch_start ◌>>=◌
  receive_batch-looked f fs lines req reqs c blank rest e p b = rw e (
      rw
        (batch_loop-Parses lines reqs (req ∷ []) 1 (suc (length (lines ++ (blank ∷ rest))))
          (record c { previous = f ∷ fs }) blank rest p b (omega arith)
          (omega (arith, length-append lines (blank ∷ rest))))
        refl)

  -- A batch that is read with no look ahead.
  receive_batch-Parses :
      (lines : List Text) (reqs : List R) (c : Communicator) (blank : Text) (rest : List Text)
      → Parses lines reqs
      → fields blank ≡ []
      → 0 < length lines
      → receive_batch parse parsing empty_batch
          (record (before c (lines ++ (blank ∷ rest))) { previous = [] })
        ≡ (ok reqs, record (before c rest) { previous = [] })
  unfolding receive_batch batch_start ◌>>=◌
  receive_batch-Parses lines reqs c blank rest p b n =
      rw
        (batch_loop-Parses lines reqs [] 0 (suc (length (lines ++ (blank ∷ rest))))
          (record c { previous = [] }) blank rest p b (omega arith)
          (omega (arith, length-append lines (blank ∷ rest))))
        refl

-- The first field of a request that parses is its command.
pub parse_push-head :
    (fs : List Text) (req : PushRequest)
    → parse_push_request fs ≡ ok req
    → (rest : List Text) × (fs ≡ Commands.push ∷ rest)
unfolding parse_push_request
parse_push-head [] req h = ground arith
parse_push-head (f ∷ []) req h = ground arith
parse_push-head (f ∷ pair ∷ fs) req h = (pair ∷ fs, ground (arith, text_eq.beq_iff f Commands.push))

look_ahead-before :
    (c : Communicator) (line : Text) (lines rest : List Text)
    → fields line ≡ Commands.push ∷ rest
    → look_ahead (before c (line ∷ lines))
      ≡ (ok Commands.push, record (before c lines) { previous = Commands.push ∷ rest })
unfolding look_ahead next ◌>>=◌ supported_command list_beq contains
look_ahead-before c line lines rest e = rw (e, some_fields) refl

-- Each line holds the push request beside it.
abbrev pub PushLines : List Text → List PushRequest → Type 0
PushLines [] [] = Unit
PushLines (line ∷ lines) (req ∷ reqs) =
    (parse_push_request (fields line) ≡ ok req) × (fields line ≢ []) × PushLines lines reqs
PushLines _ _ = ⊥

PushLines-Parses :
    (lines : List Text) (reqs : List PushRequest)
    → PushLines lines reqs
    → Parses parse_push_request "parsing push request: %w" "received empty push request batch" lines
        reqs
PushLines-Parses [] [] p = tt
PushLines-Parses (line ∷ lines) (req ∷ reqs) p = (p.0, p.1, PushLines-Parses lines reqs p.2)
PushLines-Parses [] (_ ∷ _) p = elim p [ ]
PushLines-Parses (_ ∷ _) [] p = elim p [ ]

-- What Run does with a push batch: it looks at the first line and then parses the batch.
pub look_and_receive : Action Communicator (List PushRequest)
look_and_receive = do look_ahead; receive_push_batch

-- If the input begins with lines that are push requests, at least one, and a blank line, then
-- looking ahead and parsing the batch gives exactly those requests in order, reads exactly those
-- lines and the blank one, writes nothing, and forgets the line that was looked at.
pub look_and_receive-Parses :
    (line : Text) (lines : List Text) (req : PushRequest) (reqs : List PushRequest)
    (c : Communicator) (blank : Text) (rest : List Text)
    → PushLines (line ∷ lines) (req ∷ reqs)
    → fields blank ≡ []
    → look_and_receive (before c (line ∷ (lines ++ (blank ∷ rest))))
      ≡ (ok (req ∷ reqs), record (before c rest) { previous = [] })
unfolding look_and_receive receive_push_batch ◌>>=◌
look_and_receive-Parses line lines req reqs c blank rest p b =
    let (more, e) = parse_push-head (fields line) req p.0 in
    rw (look_ahead-before c line (lines ++ (blank ∷ rest)) more e) (
      receive_batch-looked parse_push_request "parsing push request: %w"
        "received empty push request batch" Commands.push more lines req reqs c blank rest
        (rw e at p.0) (PushLines-Parses lines reqs p.2) b)
