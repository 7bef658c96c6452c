-- ===== src/Comms/Reverse/Answers.antt =====
-- Responses that one side writes line by line, and the other accepts.
pub mod Listed
pub mod Pushed
use gnoci.Base.{
  ℕ, zero, suc, ◌+◌, ◌≤◌, ◌≡◌, ◌≢◌, refl, ap, sym, ◌∙◌, List, [], ◌∷◌, ◌++◌, none, Bool, true,
  false, Text, text_eq, nat_eq, String, map, All, All-append, append_assoc, append-nil, is_space,
  fields, length, list_beq, arith, ltb, if◌then◌else◌,
}
use gnoci.Outcome.{Result, ok, for_each, pure, lift, wrapping, ◌>>=◌, ◌>>◌}
use gnoci.Protocol.Lists.{ListResponse, list_response_text}
use gnoci.Protocol.Words.{IsWord, Lacks, IsWord-Lacks, fields-word, fields-last}
use gnoci.Pipe.Writes.{IsLineWriter, each-put}
use gnoci.Pipe.{IsLine, joined, joined-append, scanned, scanned-joined}
use gnoci.Comms.{Communicator, print_line, end_batch, write_list_response}
use gnoci.Comms.Reverse.{
  Peer, read_line, scan, response_line, responses_loop, list_line, receive_list_response,
}

-- The other side with lines to read
abbrev pub hearing : Peer → List Text → Peer
hearing p lines = record p { input = record { lines = lines; fault = p.input.fault } }

abbrev pub print_lines : List Text → Communicator → Communicator
print_lines ts c = record c { out = record c.out { written = c.out.written ++ joined ts } }

pub print_line-IsLineWriter : IsLineWriter print_line (λ c. c.out.fault ≡ none) print_lines
unfolding print_line
print_line-IsLineWriter = record {
  writes = λ t c h. rw h refl;
  takes_more = λ t c h. h;
  put_none = λ c. rw append-nil;
  put_more = λ t ts c. rw (append_assoc, append_assoc) refl;
}

-- A line that is not the end, and that passes the test
abbrev pub IsAccepted : (Text → Result (Unit {0})) → Text → Type 0
IsAccepted test t = (list_beq t [] ≡ false) × (test t ≡ ok tt)

length-end : (ts : List Text) → suc (length ts) ≤ suc (length (ts ++ ([] ∷ [])))
length-end [] = omega arith
length-end (t ∷ ts) = omega (arith, length-end ts)

module _ (test : Text → Result (Unit {0})) where
  loop-accepts :
      (ts : List Text) (p : Peer) (fuel : ℕ)
      → All (IsAccepted test) ts
      → suc (length ts) ≤ fuel
      → responses_loop test fuel (hearing p (ts ++ ([] ∷ []))) ≡ (ok tt, hearing p [])
  unfolding responses_loop response_line read_line scan pure lift ◌>>=◌ list_beq
  loop-accepts ts p zero h l = absurd (omega (arith, l))
  loop-accepts [] p (suc fuel) h l = refl
  loop-accepts (t ∷ ts) p (suc fuel) ((full, passes), h) l =
      rw (full, passes) (loop-accepts ts p fuel h (omega (arith, l)))

  pub written-accepted :
      (ts : List Text) (p : Peer)
      → All IsLine ts
      → All (IsAccepted test) ts
      → responses_loop test
          (suc (length (scanned (joined (ts ++ ([] ∷ []))))))
          (hearing p (scanned (joined (ts ++ ([] ∷ [])))))
        ≡ (ok tt, hearing p [])
  written-accepted ts p lines accepted =
      rw
        (scanned-joined (ts ++ ([] ∷ []))
          (All-append IsLine ts ([] ∷ []) lines (record { no_newline = tt; no_return = tt }, tt)))
        (loop-accepts ts p _ accepted (length-end ts))

pub not_end : (s t : Text) (c : ℕ) → list_beq (s ++ (c ∷ t)) [] ≡ false
unfolding list_beq
not_end [] t c = refl
not_end (x ∷ s) t c = refl

pub end_batch-put :
    (c : Communicator) → c.out.fault ≡ none → end_batch c ≡ (ok tt, print_lines ([] ∷ []) c)
unfolding end_batch wrapping print_line
end_batch-put c h = rw h refl

-- All lines of a batch, and the empty one behind them
pub batch-put :
    {A : Type 0} (format : String) (line : A → Text) (xs : List A) (c : Communicator)
    → c.out.fault ≡ none
    → (do for_each xs (λ x. wrapping format [] (print_line (line x))); end_batch) c
      ≡ (ok tt, print_lines (map line xs ++ ([] ∷ [])) c)
unfolding ◌>>=◌
batch-put format line xs c h =
    rw
      (
        each-put print_line-IsLineWriter format (λ x. []) line xs c h,
        end_batch-put (print_lines (map line xs) c) h,
        joined-append (map line xs) ([] ∷ []),
      )
      (rw append_assoc)
