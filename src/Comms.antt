-- ===== src/Comms.antt =====
-- Reading requests from Git and writing responses (pkg/protocol/git/comms/comms.go). The scanner
-- yields the lines of the input and then stops, with an error if there is one; the writer takes
-- any number of writes, or a number of them before every further write fails.
pub mod Batches
pub mod Consumes
pub mod Fuel
pub mod Reverse
use gnoci.Base.{
  ℕ, zero, suc, ◌+◌, List, [], ◌∷◌, ◌++◌, Option, none, some, Bool, Text, String, text_eq, nat_eq,
  ◌==◌, fields, length, if◌then◌else◌,
}
use gnoci.Outcome.{
  Result, ok, err, crash, Error, sentinel, errorf, wrapf, is, empty_request, end_of_input,
  unsupported_request, out_of_fuel, index_out_of_range, Action, pure, fail, lift, modify, wrapping,
  attempt, for_each, continue, bind, wrap, ◌>>=◌, ◌>>◌,
}
use gnoci.Plumbing.{GoGit}
use gnoci.Protocol.Commands.{Command, supported_command}
use gnoci.Protocol.Capabilities.{Capability, CapabilitiesRequest, parse_capabilities_request}
use gnoci.Protocol.Options.{
  OptionRequest, parse_option_request, option_supported, option_not_supported,
}
use gnoci.Protocol.Lists.{ListRequest, parse_list_request, ListResponse, list_response_text}
use gnoci.Protocol.Push.{PushRequest, parse_push_request, PushResponse, push_response_text}
use gnoci.Protocol.Fetch.{FetchRequest, parse_fetch_request}

-- A bufio.Scanner that splits lines
pub record Scanner : Type 0 where
  pub lines : List Text
  pub fault : Option Error

-- An io.Writer, with all that it has taken
pub record Writer : Type 0 where
  pub written : Text
  pub fault : Option (ℕ × Error)

-- `previous` is the line that LookAhead read, as fields; it is empty where the code has nil.
pub record Communicator : Type 0 where
  pub input : Scanner
  pub out : Writer
  pub previous : List Text

-- What Scan, Err and Text give together
stopped : Option Error → Result Text
stopped (some e) = err (wrapf "reading single command from git-lfs: %w" [] e)
stopped none = err (sentinel end_of_input)

scan : List Text → Communicator → Result Text × Communicator
scan [] c = (stopped c.input.fault, c)
scan (line ∷ rest) c =
    (ok line, record c { input = record { lines = rest; fault = c.input.fault } })

unfoldable pub read_line : Action Communicator Text
unfolding scan stopped
read_line c = scan c.input.lines c

some_fields : List Text → Result (List Text)
some_fields [] = err (sentinel empty_request)
some_fields (f ∷ fs) = ok (f ∷ fs)

unfoldable pub next : Action Communicator (List Text)
unfolding read_line some_fields
next = do line ← read_line; lift (some_fields (fields line))

head_command : List Text → Result Command
head_command [] = crash index_out_of_range
head_command (cmd ∷ rest) =
    if supported_command cmd
    then ok cmd
    else err (wrapf "%w: %s" (cmd ∷ []) (sentinel unsupported_request))

unfoldable pub look_ahead : Action Communicator Command
unfolding head_command
look_ahead = do found ← next; modify (λ c. record c { previous = found }); lift (head_command found)

read_fields : List Text → Action Communicator (List Text)
read_fields [] = next
read_fields (f ∷ fs) = pure (f ∷ fs)

unfoldable pub previous_or_next : Action Communicator (List Text)
unfolding read_fields
previous_or_next c = read_fields c.previous c

-- `defer func() { c.previous = nil }()`
abbrev pub forgetting : {A : Type 0} → Action Communicator A → Action Communicator A
forgetting m c = let (r, d) = m c in (r, record d { previous = [] })

unfoldable pub receive_capabilities_request : Action Communicator CapabilitiesRequest
receive_capabilities_request = forgetting (do
  found ← previous_or_next
  lift (wrap "parsing capabilities request: %w" [] (parse_capabilities_request found)))

unfoldable pub receive_option_request : Action Communicator OptionRequest
receive_option_request = forgetting (do
  found ← previous_or_next
  lift (wrap "parsing option request: %w" [] (parse_option_request found)))

unfoldable pub receive_list_request : Action Communicator ListRequest
receive_list_request = forgetting (do
  found ← previous_or_next
  lift (wrap "parsing capabilities request: %w" [] (parse_list_request found)))

-- The two batch parsers are one text up to the request's type and the name in the messages.
module _ {R : Type 0} (parse : List Text → Result R) (parsing empty_batch : String) where
  -- `reqs` and `size` before the loop
  unfoldable pub batch_start : List Text → Result (List R × ℕ)
  batch_start [] = ok ([], 0)
  batch_start (f ∷ fs) = bind (parse (f ∷ fs)) (λ req. ok (req ∷ [], 1))

  -- The switch on the error of `next`; `more` goes on with one more request.
  batch_step :
      Result (List Text)
      → List R
      → ℕ
      → (R → Action Communicator (List R))
      → Action Communicator (List R)
  batch_step (ok found) reqs size more = do req ← lift (wrap parsing [] (parse found)); more req
  batch_step (err e) reqs size more =
      if is empty_request e
      then (if size == 1 then fail (errorf empty_batch []) else pure reqs)
      else fail e
  batch_step (crash k) reqs size more = lift (crash k)

  unfoldable pub batch_loop : ℕ → List R → ℕ → Action Communicator (List R)
  unfolding batch_step
  batch_loop zero reqs size = lift (crash out_of_fuel)
  batch_loop (suc fuel) reqs size = do
    found ← attempt next
    batch_step found reqs (size + 1) (λ req. batch_loop fuel (reqs ++ (req ∷ [])) (size + 1))

  -- Each round reads a line or is the last.
  unfoldable pub receive_batch : Action Communicator (List R)
  unfolding batch_start batch_loop
  receive_batch = forgetting (λ c.
      continue (batch_start c.previous)
        (λ start. batch_loop (suc (length c.input.lines)) start.0 start.1) c)

unfoldable pub receive_fetch_batch : GoGit → Action Communicator (List FetchRequest)
unfolding receive_batch
receive_fetch_batch git =
    receive_batch (parse_fetch_request git) "parsing fetch request: %w"
      "received empty fetch request batch"

unfoldable pub receive_push_batch : Action Communicator (List PushRequest)
unfolding receive_batch
receive_push_batch =
    receive_batch parse_push_request "parsing push request: %w" "received empty push request batch"

unfoldable pub put_text : Option (ℕ × Error) → Text → Writer → Result (Unit {0}) × Writer
put_text none line w = (ok tt, record w { written = w.written ++ line })
put_text (some (zero, e)) line w = (err e, w)
put_text (some (suc n, e)) line w =
    (ok tt, record { written = w.written ++ line; fault = some (n, e) })

-- fmt.Fprintln(c.out, line)
unfoldable pub print_line : Text → Action Communicator (Unit {0})
unfolding put_text
print_line line c =
    let (r, w) = put_text c.out.fault (line ++ (b'\n' ∷ [])) c.out in (r, record c { out = w })

pub end_batch : Action Communicator (Unit {0})
end_batch = wrapping "writing newline: %w" [] (print_line [])

unfoldable pub write_capabilities_response : List Capability → Action Communicator (Unit {0})
unfolding print_line end_batch
write_capabilities_response capabilities = do
  for_each capabilities (λ c. wrapping "writing capability %s: %w" (c ∷ []) (print_line c))
  end_batch

unfoldable pub write_option_response : Bool → Action Communicator (Unit {0})
unfolding print_line
write_option_response supported =
    wrapping "writing option response: %w" []
      (print_line (if supported then option_supported else option_not_supported))

unfoldable pub write_list_response : List ListResponse → Action Communicator (Unit {0})
unfolding print_line end_batch
write_list_response resps = do
  for_each resps (λ r. wrapping "writing list response: %w" [] (print_line (list_response_text r)))
  end_batch

unfoldable pub write_push_response : List PushResponse → Action Communicator (Unit {0})
unfolding print_line end_batch
write_push_response resps = do
  for_each resps (λ r. wrapping "writing push response: %w" [] (print_line (push_response_text r)))
  end_batch

unfoldable pub write_fetch_response : Action Communicator (Unit {0})
unfolding print_line end_batch
write_fetch_response = end_batch
