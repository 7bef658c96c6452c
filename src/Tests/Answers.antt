-- ===== src/Tests/Answers.antt =====
-- Responses of the helper that the other side receives.
use mathlib.Core.Path.{subst}
use gnoci.Base.{◌≡◌, refl, [], ◌∷◌, none, some, text, text_eq, is_space, fields}
use gnoci.Outcome.{ok, Error, message, foreign}
use gnoci.Protocol.Lists.{ListResponse}
use gnoci.Protocol.Push.{PushResponse}
use gnoci.Pipe.{scanned}
use gnoci.Comms.{write_list_response, write_push_response}
use gnoci.Comms.Reverse.{Peer, receive_list_response, receive_push_response_batch}
use gnoci.Comms.Reverse.Answers.{hearing}
use gnoci.Comms.Reverse.Answers.Listed.{IsEntry, receive_list_response-write_list_response}
use gnoci.Comms.Reverse.Answers.Pushed.{
  IsAnswer, IsRemark, receive_push_response_batch-write_push_response,
}
use gnoci.Tests.{reading}

abbrev git_side : Peer
git_side = record {
  input = record { lines = []; fault = none };
  out = record { written = []; fault = none };
}

-- A branch, and HEAD that points to it
abbrev branch_entry : ListResponse
branch_entry = record { reference = text "r/m"; commit = text "2" }

abbrev head_entry : ListResponse
head_entry = record { reference = text "HEAD"; commit = text "@r/m" }

branch_entry-IsEntry : IsEntry branch_entry
unfolding is_space
branch_entry-IsEntry = record {
  commit_word = (refl, tt);
  commit_full = λ e. cc;
  reference_word = (refl, (refl, (refl, tt)));
  reference_full = λ e. cc;
}

head_entry-IsEntry : IsEntry head_entry
unfolding is_space
head_entry-IsEntry = record {
  commit_word = (refl, (refl, (refl, (refl, tt))));
  commit_full = λ e. cc;
  reference_word = (refl, (refl, (refl, (refl, tt))));
  reference_full = λ e. cc;
}

receive_list_response-write_list_response_example :
    receive_list_response (
      hearing git_side
        (scanned (write_list_response (branch_entry ∷ head_entry ∷ []) (reading [])).1.out.written))
    ≡ (ok tt, hearing git_side [])
receive_list_response-write_list_response_example =
    receive_list_response-write_list_response (branch_entry ∷ head_entry ∷ []) (reading []) git_side
      refl refl (branch_entry-IsEntry, (head_entry-IsEntry, tt))

-- One push that was done, and one that was refused
abbrev done_answer : PushResponse
done_answer = record { remote = text "r/m"; error = none }

abbrev refused_answer : PushResponse
refused_answer = record { remote = text "r/n"; error = some (foreign (text "no ff")) }

-- The message has two words, in one line.
refusal-IsRemark : IsRemark (foreign (text "no ff"))
unfolding message fields is_space
refusal-IsRemark = record {
  one_line = record {
    no_newline = (refl, (refl, (refl, (refl, (refl, tt)))));
    no_return = (refl, (refl, (refl, (refl, (refl, tt)))));
  };
  some_words = λ e. cc;
}

done_answer-IsAnswer : IsAnswer done_answer
unfolding is_space
done_answer-IsAnswer = record {
  remote_word = (refl, (refl, (refl, tt)));
  remote_full = λ e. cc;
  remark = λ e h. cc;
}

only_refusal : (e : Error) → some (foreign (text "no ff")) ≡ some e → IsRemark e
only_refusal e h = subst IsRemark (some_is h) refusal-IsRemark
  where
    some_is : {a b : Error} → some a ≡ some b → a ≡ b
    some_is k = cc

refused_answer-IsAnswer : IsAnswer refused_answer
unfolding is_space
refused_answer-IsAnswer = record {
  remote_word = (refl, (refl, (refl, tt)));
  remote_full = λ e. cc;
  remark = only_refusal;
}

receive_push_response_batch-write_push_response_example :
    receive_push_response_batch (
      hearing git_side (
        scanned
          (write_push_response (done_answer ∷ refused_answer ∷ []) (reading [])).1.out.written))
    ≡ (ok tt, hearing git_side [])
receive_push_response_batch-write_push_response_example =
    receive_push_response_batch-write_push_response (done_answer ∷ refused_answer ∷ []) (reading [])
      git_side refl refl (done_answer-IsAnswer, (refused_answer-IsAnswer, tt))
