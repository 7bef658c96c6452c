-- ===== src/Comms/Reverse/Answers/Listed.antt =====
-- A response to a list request.
use gnoci.Base.{
  ◌≡◌, ◌≢◌, refl, List, [], ◌∷◌, none, text_eq, nat_eq, map, All, All-append, is_space,
}
use gnoci.Outcome.{ok}
use gnoci.Protocol.Lists.{ListResponse, list_response_text}
use gnoci.Protocol.Words.{IsWord, IsWord-Lacks, fields-word, fields-last}
use gnoci.Pipe.{IsLine, scanned}
use gnoci.Comms.{Communicator, write_list_response}
use gnoci.Comms.Reverse.{Peer, list_line, receive_list_response}
use gnoci.Comms.Reverse.Answers.{hearing, IsAccepted, written-accepted, not_end, batch-put}

-- An entry whose parts are words
pub record IsEntry (r : ListResponse) : Type 0 where
  pub commit_word : IsWord r.commit
  pub commit_full : r.commit ≢ []
  pub reference_word : IsWord r.reference
  pub reference_full : r.reference ≢ []

entry-IsLine : (r : ListResponse) → IsEntry r → IsLine (list_response_text r)
unfolding list_response_text is_space
entry-IsLine r h = record {
  no_newline =
      All-append _ r.commit (b' ' ∷ r.reference) (IsWord-Lacks b'\n' _ refl h.commit_word)
        (refl, IsWord-Lacks b'\n' _ refl h.reference_word);
  no_return =
      All-append _ r.commit (b' ' ∷ r.reference) (IsWord-Lacks b'\r' _ refl h.commit_word)
        (refl, IsWord-Lacks b'\r' _ refl h.reference_word);
}

entry-accepted : (r : ListResponse) → IsEntry r → list_line (list_response_text r) ≡ ok tt
unfolding list_line list_response_text
entry-accepted r h =
    rw
      (
        fields-word r.commit r.reference h.commit_word h.commit_full,
        fields-last r.reference h.reference_word h.reference_full,
      )
      refl

entries-IsLine : (rs : List ListResponse) → All IsEntry rs → All IsLine (map list_response_text rs)
entries-IsLine [] h = tt
entries-IsLine (r ∷ rs) h = (entry-IsLine r h.0, entries-IsLine rs h.1)

entries-IsAccepted :
    (rs : List ListResponse)
    → All IsEntry rs
    → All (IsAccepted list_line) (map list_response_text rs)
unfolding list_response_text
entries-IsAccepted [] h = tt
entries-IsAccepted (r ∷ rs) h =
    ((not_end r.commit r.reference b' ', entry-accepted r h.0), entries-IsAccepted rs h.1)

-- A response to a list request that the helper writes to a fresh pipe is accepted: where the writer
-- takes every write, and the commit and the reference of each entry are words that are not empty, the
-- other side receives the response without an error, and reads all that was written.
pub receive_list_response-write_list_response :
    (rs : List ListResponse) (c : Communicator) (p : Peer)
    → c.out.fault ≡ none
    → c.out.written ≡ []
    → All IsEntry rs
    → receive_list_response (hearing p (scanned (write_list_response rs c).1.out.written))
      ≡ (ok tt, hearing p [])
unfolding receive_list_response write_list_response
receive_list_response-write_list_response rs c p h fresh es =
    rw (batch-put "writing list response: %w" list_response_text rs c h, fresh)
      (written-accepted list_line (map list_response_text rs) p (entries-IsLine rs es)
        (entries-IsAccepted rs es))
