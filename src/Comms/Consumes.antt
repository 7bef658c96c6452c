-- ===== src/Comms/Consumes.antt =====
-- No call puts a line back: the input that is left only gets shorter, and its fault stays.
use gnoci.Base.{
  ℕ, zero, suc, ◌≤◌, List, [], ◌∷◌, ◌≡◌, refl, Bool, String, Text, Option, none, some, length,
  fields, arith, if◌then◌else◌, nat_eq, ◌==◌,
}
use gnoci.Outcome.{
  Action, Result, ok, err, crash, Error, is, sentinel, wrapf, end_of_input, empty_request, errorf,
  fail, pure, continue, ◌>>=◌,
}
use gnoci.Outcome.Keeps.{
  Keeps, Keeps-attempt, Keeps-bind, Keeps-then, Keeps-lift, Keeps-pure, Keeps-if, Keeps-fail,
  Keeps-wrapping, Keeps-modify, Keeps-for_each, Keeps-continue,
}
use gnoci.Plumbing.{GoGit}
use gnoci.Protocol.Lists.{ListResponse}
use gnoci.Protocol.Push.{PushResponse, parse_push_request}
use gnoci.Protocol.Fetch.{parse_fetch_request}
use gnoci.Comms.{
  Communicator, scan, stopped, some_fields, head_command, read_line, next, read_fields,
  previous_or_next, forgetting, look_ahead, receive_capabilities_request, receive_option_request,
  receive_list_request, batch_start, batch_step, batch_loop, receive_batch, receive_push_batch,
  receive_fetch_batch, print_line, end_batch, write_capabilities_response, write_option_response,
  write_list_response, write_push_response, write_fetch_response,
}

-- At most this many lines are left, and reading fails in this way behind them.
abbrev pub Left : ℕ → Option Error → Communicator → Type 0
Left n fault c = (length c.input.lines ≤ n) × (c.input.fault ≡ fault)

module _ (n : ℕ) (fault : Option Error) where
  abbrev K : {A : Type 0} → Action Communicator A → Type 0
  K = Keeps (Left n fault)

  scan-Left :
      (lines : List Text) (c : Communicator)
      → length lines ≤ n
      → Left n fault c
      → Left n fault (scan lines c).1
  unfolding scan
  scan-Left [] c l h = h
  scan-Left (line ∷ rest) c l h = (omega arith, h.1)

  next-Left : K next
  unfolding next read_line
  next-Left =
      Keeps-bind _ _ (record { after = λ c h. scan-Left c.input.lines c h.0 h })
        λ line. Keeps-lift _

  pub look_ahead-Left : K look_ahead
  unfolding look_ahead
  look_ahead-Left =
      Keeps-bind _ _ next-Left λ found. Keeps-then _ _ (Keeps-modify _ (λ c h. h)) (Keeps-lift _)

  read_fields-Left : (fs : List Text) → K (read_fields fs)
  unfolding read_fields
  read_fields-Left [] = next-Left
  read_fields-Left (f ∷ fs) = Keeps-pure _

  previous_or_next-Left : K previous_or_next
  unfolding previous_or_next
  previous_or_next-Left = record { after = λ c h. (read_fields-Left c.previous).after c h }

  forgetting-Left : {A : Type 0} (m : Action Communicator A) → K m → K (forgetting m)
  forgetting-Left m k = record { after = λ c h. k.after c h }

  pub receive_capabilities_request-Left : K receive_capabilities_request
  unfolding receive_capabilities_request
  receive_capabilities_request-Left =
      forgetting-Left _ (Keeps-bind _ _ previous_or_next-Left λ found. Keeps-lift _)

  pub receive_option_request-Left : K receive_option_request
  unfolding receive_option_request
  receive_option_request-Left =
      forgetting-Left _ (Keeps-bind _ _ previous_or_next-Left λ found. Keeps-lift _)

  pub receive_list_request-Left : K receive_list_request
  unfolding receive_list_request
  receive_list_request-Left =
      forgetting-Left _ (Keeps-bind _ _ previous_or_next-Left λ found. Keeps-lift _)

  module _ {R : Type 0} (parse : List Text → Result R) (parsing empty_batch : String) where
    batch_step-Left :
        (r : Result (List Text)) (reqs : List R) (size : ℕ)
        (more : R → Action Communicator (List R))
        → ((req : R) → K (more req))
        → K (batch_step parse parsing empty_batch r reqs size more)
    unfolding batch_step
    batch_step-Left (ok found) reqs size more k = Keeps-bind _ _ (Keeps-lift _) k
    batch_step-Left (err e) reqs size more k =
        Keeps-if (is empty_request e)
          (if size == 1 then fail (errorf empty_batch []) else pure reqs) (fail e)
          (λ _.
            Keeps-if (size == 1) (fail (errorf empty_batch [])) (pure reqs) (λ _. Keeps-fail _)
              (λ _. Keeps-pure _))
          (λ _. Keeps-fail _)
    batch_step-Left (crash c) reqs size more k = Keeps-lift _

    batch_loop-Left :
        (fuel : ℕ) (reqs : List R) (size : ℕ)
        → K (batch_loop parse parsing empty_batch fuel reqs size)
    unfolding batch_loop
    batch_loop-Left zero reqs size = Keeps-lift _
    batch_loop-Left (suc fuel) reqs size =
        Keeps-bind _ _ (Keeps-attempt _ next-Left)
          λ found. batch_step-Left found reqs _ _ (λ req. batch_loop-Left fuel _ _)

    pub receive_batch-Left : K (receive_batch parse parsing empty_batch)
    unfolding receive_batch
    receive_batch-Left = record {
      after = λ c h.
          (Keeps-continue (batch_start parse parsing empty_batch c.previous)
              (λ start.
                batch_loop parse parsing empty_batch (suc (length c.input.lines)) start.0 start.1)
              (λ start _. batch_loop-Left (suc (length c.input.lines)) start.0 start.1)).after
            c h;
    }

  pub receive_push_batch-Left : K receive_push_batch
  unfolding receive_push_batch
  receive_push_batch-Left =
      receive_batch-Left parse_push_request "parsing push request: %w"
        "received empty push request batch"

  pub receive_fetch_batch-Left : (git : GoGit) → K (receive_fetch_batch git)
  unfolding receive_fetch_batch
  receive_fetch_batch-Left git =
      receive_batch-Left (parse_fetch_request git) "parsing fetch request: %w"
        "received empty fetch request batch"

  print_line-Left : (line : Text) → K (print_line line)
  unfolding print_line
  print_line-Left line = record { after = λ c h. h }

  end_batch-Left : K end_batch
  unfolding end_batch
  end_batch-Left = Keeps-wrapping _ _ _ (print_line-Left [])

  pub write_capabilities_response-Left : (cs : List Text) → K (write_capabilities_response cs)
  unfolding write_capabilities_response
  write_capabilities_response-Left cs =
      Keeps-then _ _ (Keeps-for_each cs _ (λ c. Keeps-wrapping _ _ _ (print_line-Left _)))
        end_batch-Left

  pub write_option_response-Left : (supported : Bool) → K (write_option_response supported)
  unfolding write_option_response
  write_option_response-Left supported = Keeps-wrapping _ _ _ (print_line-Left _)

  pub write_list_response-Left : (rs : List ListResponse) → K (write_list_response rs)
  unfolding write_list_response
  write_list_response-Left rs =
      Keeps-then _ _ (Keeps-for_each rs _ (λ c. Keeps-wrapping _ _ _ (print_line-Left _)))
        end_batch-Left

  pub write_push_response-Left : (rs : List PushResponse) → K (write_push_response rs)
  unfolding write_push_response
  write_push_response-Left rs =
      Keeps-then _ _ (Keeps-for_each rs _ (λ c. Keeps-wrapping _ _ _ (print_line-Left _)))
        end_batch-Left

  pub write_fetch_response-Left : K write_fetch_response
  unfolding write_fetch_response
  write_fetch_response-Left = end_batch-Left

remembers :
    (n : ℕ) (fault : Option Error) (fs : List Text) (c : Communicator)
    → Left n fault c
    → Left n fault
        (continue
          (some_fields fs)
          (λ found d. (head_command found, record d { previous = found }))
          c).1
unfolding some_fields
remembers n fault [] c h = h
remembers n fault (f ∷ fs) c h = h

-- LookAhead takes a line if there is one.
pub look_ahead-takes :
    (c : Communicator) (line : Text) (rest : List Text)
    → c.input.lines ≡ line ∷ rest
    → Left (length rest) c.input.fault (look_ahead c).1
unfolding look_ahead next read_line scan ◌>>=◌
look_ahead-takes c line rest e = rw e (
    remembers (length rest) c.input.fault (fields line)
      (record c { input = record { lines = rest; fault = c.input.fault } }) (omega arith, refl))

-- The error of a read behind the last line
abbrev pub stop_error : Option Error → Error
stop_error none = sentinel end_of_input
stop_error (some e) = wrapf "reading single command from git-lfs: %w" [] e

stopped-err : (fault : Option Error) → stopped fault ≡ err (stop_error fault)
unfolding stopped
stopped-err none = refl
stopped-err (some e) = refl

pub look_ahead-stops :
    (c : Communicator) → c.input.lines ≡ [] → look_ahead c ≡ (err (stop_error c.input.fault), c)
unfolding look_ahead next read_line scan ◌>>=◌
look_ahead-stops c e = rw (e, stopped-err c.input.fault) refl
