-- ===== src/Comms/Reverse/Pushes.antt =====
-- A batch of pushes that one side sends, the other reads.
use gnoci.Base.{
  ℕ, ◌≡◌, ◌≢◌, refl, List, [], ◌∷◌, ◌++◌, none, Bool, true, false, Text, map, All, All-append,
  append_assoc, append-nil, is_space, nat_beq, fields,
}
use gnoci.Base.Dict.{Dict}
use gnoci.Outcome.{ok, wrapping, ◌>>=◌}
use gnoci.Protocol.Commands
use gnoci.Protocol.Push.{PushRequest, parse_push_request, push_request_text}
use gnoci.Protocol.Words.{IsWord, Lacks, IsWord-Lacks}
use gnoci.Protocol.RoundTrip.{IsSendable, parse-push_request_text}
use gnoci.Pipe.Writes.{IsLineWriter, each-put}
use gnoci.Pipe.{IsLine, joined, joined-append, scanned, scanned-joined}
use gnoci.Comms.{Communicator}
use gnoci.Comms.Batches.{
  before, PushLines, parse_push-head, look_and_receive, look_and_receive-Parses,
}
use gnoci.Comms.Reverse.{Peer, write_line, push_request_of, send_push_request_batch}

abbrev line_of : Text × Text → Text
line_of r = push_request_text (push_request_of r)

abbrev put_lines : List Text → Peer → Peer
put_lines ts p = record p { out = record p.out { written = p.out.written ++ joined ts } }

write_line-put :
    (t : Text) (p : Peer) → p.out.fault ≡ none → write_line t p ≡ (ok tt, put_lines (t ∷ []) p)
unfolding write_line
write_line-put t p h = rw h refl

write_line-IsLineWriter : IsLineWriter write_line (λ p. p.out.fault ≡ none) put_lines
write_line-IsLineWriter = record {
  writes = write_line-put;
  takes_more = λ t p h. h;
  put_none = λ p. rw append-nil;
  put_more = λ t ts p. rw (append_assoc, append_assoc) refl;
}

batch-put :
    (refs : Dict Text) (p : Peer)
    → p.out.fault ≡ none
    → send_push_request_batch refs p ≡ (ok tt, put_lines (map line_of refs ++ ([] ∷ [])) p)
unfolding send_push_request_batch wrapping ◌>>=◌
batch-put refs p h =
    rw
      (
        each-put write_line-IsLineWriter "writing PushRequest: %w" (λ r. []) line_of refs p h,
        write_line-put [] (put_lines (map line_of refs) p) h,
        joined-append (map line_of refs) ([] ∷ []),
      )
      (rw append_assoc)

-- A separator that is a blank and none of the characters that a request is printed with
record IsOutside (sep : ℕ) : Type 0 where
  is_blank : is_space sep ≡ true
  no_cmd : Lacks sep Commands.push
  no_gap : nat_beq b' ' sep ≡ false
  no_plus : nat_beq b'+' sep ≡ false
  no_colon : nat_beq b':' sep ≡ false

line-Lacks :
    (sep : ℕ) (f : Bool) (s t : Text)
    → IsOutside sep
    → IsWord s
    → IsWord t
    → Lacks sep (push_request_text (record { cmd = Commands.push; force = f; src = s; remote = t }))
unfolding push_request_text
line-Lacks sep true s t o hs ht =
    All-append (λ c. nat_beq c sep ≡ false) Commands.push (b' ' ∷ (b'+' ∷ (s ++ (b':' ∷ t))))
      o.no_cmd
      (
        o.no_gap,
        (
          o.no_plus,
          All-append (λ c. nat_beq c sep ≡ false) s (b':' ∷ t) (IsWord-Lacks sep s o.is_blank hs)
              (o.no_colon, IsWord-Lacks sep t o.is_blank ht),
        ),
      )
line-Lacks sep false s t o hs ht =
    All-append (λ c. nat_beq c sep ≡ false) Commands.push (b' ' ∷ (s ++ (b':' ∷ t))) o.no_cmd
      (
        o.no_gap,
        All-append (λ c. nat_beq c sep ≡ false) s (b':' ∷ t) (IsWord-Lacks sep s o.is_blank hs)
            (o.no_colon, IsWord-Lacks sep t o.is_blank ht),
      )

newline-IsOutside : IsOutside b'\n'
unfolding is_space
newline-IsOutside = record {
  is_blank = refl;
  no_cmd = (refl, (refl, (refl, (refl, tt))));
  no_gap = refl;
  no_plus = refl;
  no_colon = refl;
}

return-IsOutside : IsOutside b'\r'
unfolding is_space
return-IsOutside = record {
  is_blank = refl;
  no_cmd = (refl, (refl, (refl, (refl, tt))));
  no_gap = refl;
  no_plus = refl;
  no_colon = refl;
}

sent-IsLine : (r : Text × Text) → IsSendable (push_request_of r) → IsLine (line_of r)
unfolding push_request_of
sent-IsLine r s = record {
  no_newline = line-Lacks b'\n' _ _ _ newline-IsOutside s.src_name.is_word s.remote_name.is_word;
  no_return = line-Lacks b'\r' _ _ _ return-IsOutside s.src_name.is_word s.remote_name.is_word;
}

-- Every entry can be sent.
abbrev pub Sendable : Dict Text → Type 0
Sendable refs = All (λ r. IsSendable (push_request_of r)) refs

sent-IsLines : (refs : Dict Text) → Sendable refs → All IsLine (map line_of refs)
sent-IsLines [] s = tt
sent-IsLines (r ∷ refs) s = (sent-IsLine r s.0, sent-IsLines refs s.1)

parsed-some : (fs : List Text) (req : PushRequest) → parse_push_request fs ≡ ok req → fs ≢ []
parsed-some fs req e = let (rest, f) = parse_push-head fs req e in rw f (λ n. cc)

sent-PushLines :
    (refs : Dict Text) → Sendable refs → PushLines (map line_of refs) (map push_request_of refs)
sent-PushLines [] s = tt
sent-PushLines (r ∷ refs) s =
    let parses = parse-push_request_text (push_request_of r) s.0 in
    (parses, parsed-some _ (push_request_of r) parses, sent-PushLines refs s.1)

fields-nil : fields [] ≡ []
unfolding fields
fields-nil = refl

-- A batch of pushes that Git sends over a fresh pipe is the batch that the helper reads: where the
-- writer takes every write, there is at least one entry, and every entry's names can be sent, looking
-- ahead and parsing the batch gives the requests of the entries in order, and reads all that was sent.
pub look_and_receive-send_push_request_batch :
    (r : Text × Text) (refs : Dict Text) (p : Peer) (c : Communicator)
    → p.out.fault ≡ none
    → p.out.written ≡ []
    → Sendable (r ∷ refs)
    → look_and_receive (before c (scanned (send_push_request_batch (r ∷ refs) p).1.out.written))
      ≡ (ok (map push_request_of (r ∷ refs)), record (before c []) { previous = [] })
look_and_receive-send_push_request_batch r refs p c h fresh s =
    rw
      (
        batch-put (r ∷ refs) p h,
        fresh,
        scanned-joined (map line_of (r ∷ refs) ++ ([] ∷ [])) (
            All-append IsLine (map line_of (r ∷ refs)) ([] ∷ []) (sent-IsLines (r ∷ refs) s)
              (record { no_newline = tt; no_return = tt }, tt)),
      )
      (look_and_receive-Parses (line_of r) (map line_of refs) (push_request_of r)
        (map push_request_of refs) c [] [] (sent-PushLines (r ∷ refs) s) fields-nil)
