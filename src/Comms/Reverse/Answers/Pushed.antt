-- ===== src/Comms/Reverse/Answers/Pushed.antt =====
-- A batch of responses to pushes.
use gnoci.Base.{
  ℕ, suc, ◌≡◌, ◌≢◌, refl, List, [], ◌∷◌, ◌++◌, Option, none, some, true, false, Text, text, text_eq,
  nat_eq, map, All, All-append, is_space, nat_beq, fields, list_beq, length, ltb, arith,
}
use gnoci.Outcome.{ok, Error, message}
use gnoci.Protocol.Push.{PushResponse, push_response_text}
use gnoci.Protocol.Words.{IsWord, Lacks, IsWord-Lacks, fields-word, fields-last}
use gnoci.Pipe.{IsLine, scanned}
use gnoci.Comms.{Communicator, write_push_response}
use gnoci.Comms.Reverse.{Peer, push_line, push_status, receive_push_response_batch}
use gnoci.Comms.Reverse.Answers.{hearing, IsAccepted, written-accepted, batch-put}

-- A message that takes one line and is not blank
pub record IsRemark (e : Error) : Type 0 where
  pub one_line : IsLine (message e)
  pub some_words : fields (message e) ≢ []

-- A response that can be read back
pub record IsAnswer (r : PushResponse) : Type 0 where
  pub remote_word : IsWord r.remote
  pub remote_full : r.remote ≢ []
  pub remark : (e : Error) → r.error ≡ some e → IsRemark e

ok-IsWord : IsWord (text "ok")
unfolding is_space
ok-IsWord = (refl, (refl, tt))

error-IsWord : IsWord (text "error")
unfolding is_space
error-IsWord = (refl, (refl, (refl, (refl, (refl, tt)))))

-- The first word, the remote name and what is behind it lack the end of a line.
answer-Lacks :
    (sep : ℕ) (word name rest : Text)
    → is_space sep ≡ true
    → IsWord word
    → nat_beq b' ' sep ≡ false
    → IsWord name
    → Lacks sep rest
    → Lacks sep (word ++ (b' ' ∷ (name ++ rest)))
answer-Lacks sep word name rest blank w gap n h =
    All-append (λ c. nat_beq c sep ≡ false) word (b' ' ∷ (name ++ rest))
      (IsWord-Lacks sep word blank w)
      (gap, All-append (λ c. nat_beq c sep ≡ false) name rest (IsWord-Lacks sep name blank n) h)

abbrev answer : Text → Option Error → PushResponse
answer name o = record { remote = name; error = o }

answer-IsLine :
    (name : Text) (o : Option Error)
    → IsAnswer (answer name o)
    → IsLine (push_response_text (answer name o))
unfolding push_response_text is_space
answer-IsLine name none h = record {
  no_newline = (refl, (refl, (refl, IsWord-Lacks b'\n' name refl h.remote_word)));
  no_return = (refl, (refl, (refl, IsWord-Lacks b'\r' name refl h.remote_word)));
}
answer-IsLine name (some e) h =
    let line = (h.remark e refl).one_line in
    record {
      no_newline =
          answer-Lacks b'\n' (text "error") name (b' ' ∷ message e) refl error-IsWord refl
            h.remote_word (refl, line.no_newline);
      no_return =
          answer-Lacks b'\r' (text "error") name (b' ' ∷ message e) refl error-IsWord refl
            h.remote_word (refl, line.no_return);
    }

-- The words behind the remote name are enough for the switch.
enough_words :
    (words : List Text)
    → words ≢ []
    → (ltb (suc (suc (length words))) 2 ≡ false) × (ltb (suc (length words)) 2 ≡ false)
enough_words [] n = absurd (n refl)
enough_words (w ∷ words) n = (ground arith, ground arith)

answer-accepted :
    (name : Text) (o : Option Error)
    → IsAnswer (answer name o)
    → push_line (push_response_text (answer name o)) ≡ ok tt
unfolding push_line push_response_text push_status list_beq
answer-accepted name none h =
    rw
      (
        fields-word (text "ok") name ok-IsWord (λ e. cc),
        fields-last name h.remote_word h.remote_full,
      )
      refl
answer-accepted name (some e) h =
    rw
      (
        fields-word (text "error") (name ++ (b' ' ∷ message e)) error-IsWord (λ e. cc),
        fields-word name (message e) h.remote_word h.remote_full,
      )
      (let (two, one) = enough_words (fields (message e)) (h.remark e refl).some_words in
        rw (two, one) refl)

answers-IsLine : (rs : List PushResponse) → All IsAnswer rs → All IsLine (map push_response_text rs)
answers-IsLine [] h = tt
answers-IsLine (r ∷ rs) h = (answer-IsLine r.remote r.error h.0, answers-IsLine rs h.1)

answer-starts :
    (name : Text) (o : Option Error) → list_beq (push_response_text (answer name o)) [] ≡ false
unfolding push_response_text list_beq
answer-starts name none = refl
answer-starts name (some e) = refl

answers-IsAccepted :
    (rs : List PushResponse)
    → All IsAnswer rs
    → All (IsAccepted push_line) (map push_response_text rs)
answers-IsAccepted [] h = tt
answers-IsAccepted (r ∷ rs) h = (
  (answer-starts r.remote r.error, answer-accepted r.remote r.error h.0),
  answers-IsAccepted rs h.1,
)

-- A batch of responses to pushes that the helper writes to a fresh pipe is accepted: where the writer
-- takes every write, the remote name of each response is a word that is not empty, and the message
-- of each error is one line that is not blank, the other side receives the batch without an error,
-- and reads all that was written.
pub receive_push_response_batch-write_push_response :
    (rs : List PushResponse) (c : Communicator) (p : Peer)
    → c.out.fault ≡ none
    → c.out.written ≡ []
    → All IsAnswer rs
    → receive_push_response_batch (hearing p (scanned (write_push_response rs c).1.out.written))
      ≡ (ok tt, hearing p [])
unfolding receive_push_response_batch write_push_response
receive_push_response_batch-write_push_response rs c p h fresh answers =
    rw (batch-put "writing push response: %w" push_response_text rs c h, fresh)
      (written-accepted push_line (map push_response_text rs) p (answers-IsLine rs answers)
        (answers-IsAccepted rs answers))
