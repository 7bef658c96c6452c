-- ===== src/Comms/Reverse.antt =====
-- The other side of the remote helper protocol, as the tests play it
-- (internal/testutils/revcomms.go): it sends requests and receives responses.
pub mod Answers
pub mod Pushes
use gnoci.Base.{
  ℕ, zero, suc, ◌+◌, List, [], ◌∷◌, ◌++◌, Option, none, some, Bool, true, false, ◌&&◌, Text, text,
  text_eq, ◌==◌, nat_eq, nat_beq, ltb, length, fields, has_prefix, trim_prefix, if◌then◌else◌,
}
use gnoci.Base.Dict.{Dict}
use gnoci.Outcome.{
  Result, ok, err, crash, Error, sentinel, errorf, wrapf, end_of_input, out_of_fuel, Action, pure,
  lift, wrapping, for_each, ◌>>=◌, ◌>>◌,
}
use gnoci.Plumbing.{GoGit, Reference}
use gnoci.Protocol.Commands
use gnoci.Protocol.Capabilities.{
  capabilities_request_text, capability_option, capability_fetch, capability_push,
}
use gnoci.Protocol.Options.{OptionName, option_request_text, option_supported, option_not_supported}
use gnoci.Protocol.Lists.{list_request_text}
use gnoci.Protocol.Push.{PushRequest, plus, push_request_text}
use gnoci.Protocol.Fetch.{fetch_request_text}
use gnoci.Comms.{Scanner, Writer, put_text}

pub record Peer : Type 0 where
  pub input : Scanner
  pub out : Writer

-- c.out.Write of a text with a newline behind it
unfoldable pub write_line : Text → Action Peer (Unit {0})
unfolding put_text
write_line t p =
    let (r, o) = put_text p.out.fault (t ++ (b'\n' ∷ [])) p.out in (r, record p { out = o })

unfoldable pub send_capabilities_request : Action Peer (Unit {0})
send_capabilities_request =
    wrapping "writing CapabilitiesRequest: %w" []
      (write_line (capabilities_request_text (record { cmd = Commands.capabilities })))

unfoldable pub send_option_request : OptionName → Text → Action Peer (Unit {0})
send_option_request opt value =
    let sent = wrapping "writing OptionRequest: %w" [] (
      write_line
        (option_request_text (record { cmd = Commands.options; opt = opt; value = value }))) in
    if opt == []
    then lift (err (errorf "empty option type: %s" (opt ∷ [])))
    else if value == []
    then lift (err (errorf "empty option value: %s" (value ∷ [])))
    else sent

unfoldable pub send_list_request : Bool → Action Peer (Unit {0})
send_list_request for_push =
    wrapping "writing ListRequest: %w" []
      (write_line (list_request_text (record { cmd = Commands.list; for_push = for_push })))

-- The request for an entry of the map, from source to remote reference
unfoldable pub push_request_of : Text × Text → PushRequest
push_request_of (src, remote) = record {
  cmd = Commands.push;
  force = has_prefix src plus;
  src = trim_prefix src plus;
  remote = remote;
}

unfoldable pub send_push_request_batch : Dict Text → Action Peer (Unit {0})
send_push_request_batch refs = do
  for_each refs (λ r.
      wrapping "writing PushRequest: %w" [] (write_line (push_request_text (push_request_of r))))
  wrapping "completing PushRequest: %w" [] (write_line [])

unfoldable pub send_fetch_request_batch : GoGit → List Reference → Action Peer (Unit {0})
send_fetch_request_batch git refs = do
  for_each refs (λ ref.
      wrapping "writing FetchRequest: %w" []
        (write_line (fetch_request_text git (record { cmd = Commands.fetch; ref = ref }))))
  wrapping "completing FetchRequest: %w" [] (write_line [])

stopped : Option Error → Result Text
stopped (some e) = err (wrapf "reading single command from git-lfs: %w" [] e)
stopped none = err (sentinel end_of_input)

scan : List Text → Peer → Result Text × Peer
unfolding stopped
scan [] p = (stopped p.input.fault, p)
scan (line ∷ rest) p =
    (ok line, record p { input = record { lines = rest; fault = p.input.fault } })

unfoldable pub read_line : Action Peer Text
unfolding scan
read_line p = scan p.input.lines p

-- Which capabilities have been received
record Seen : Type 0 where
  option : Bool
  fetch : Bool
  push : Bool

show_bool : Bool → Text
show_bool true = text "true"
show_bool false = text "false"

all_seen : Seen → Result (Unit {0})
unfolding show_bool
all_seen s =
    if s.option && s.fetch && s.push
    then ok tt
    else err (
        errorf "did not receive expected capabilities: got option %t fetch %t push %t"
          (show_bool s.option ∷ show_bool s.fetch ∷ show_bool s.push ∷ []))

see : Text → Seen → Result Seen
see line s =
    if line == capability_option
    then ok (record s { option = true })
    else if line == capability_fetch
    then ok (record s { fetch = true })
    else if line == capability_push
    then ok (record s { push = true })
    else err (errorf "unrecognized capability %s" (line ∷ []))

-- The part of a round after the line is read
capabilities_line : Text → Seen → (Seen → Action Peer (Unit {0})) → Action Peer (Unit {0})
unfolding all_seen see
capabilities_line line s more =
    let rest = (do t ← lift (see line s); more t) in if line == [] then lift (all_seen s) else rest

capabilities_loop : ℕ → Seen → Action Peer (Unit {0})
unfolding capabilities_line
capabilities_loop zero s = lift (crash out_of_fuel)
capabilities_loop (suc fuel) s = do
  line ← read_line
  capabilities_line line s (capabilities_loop fuel)

-- Each round of the loops below reads a line.
unfoldable pub receive_capabilities_response : Action Peer (Unit {0})
unfolding capabilities_loop
receive_capabilities_response p =
    capabilities_loop (suc (length p.input.lines))
      (record { option = false; fetch = false; push = false }) p

option_answer : Text → Result (Unit {0})
option_answer line =
    if line == option_supported
    then ok tt
    else if line == option_not_supported
    then ok tt
    else err (errorf "unrecognized OptionResponse %s" (line ∷ []))

unfoldable pub receive_option_response : Action Peer (Unit {0})
unfolding option_answer
receive_option_response = do line ← read_line; lift (option_answer line)

-- Lines up to an empty one, with a test of each
response_line : (Text → Result (Unit {0})) → Text → Action Peer (Unit {0}) → Action Peer (Unit {0})
response_line test line more =
    let rest = (do lift (test line); more) in if line == [] then pure tt else rest

pub responses_loop : (Text → Result (Unit {0})) → ℕ → Action Peer (Unit {0})
unfolding response_line
responses_loop test zero = lift (crash out_of_fuel)
responses_loop test (suc fuel) = do
  line ← read_line
  response_line test line (responses_loop test fuel)

pub list_line : Text → Result (Unit {0})
list_line line =
    if ltb (length (fields line)) 2
    then err (errorf "insufficient number of fields in ListResponse: %s" (line ∷ []))
    else ok tt

unfoldable pub receive_list_response : Action Peer (Unit {0})
unfolding responses_loop list_line
receive_list_response p = responses_loop list_line (suc (length p.input.lines)) p

-- The switch on the first field of a push response
pub push_status : Text → List Text → Result (Unit {0})
push_status line (status ∷ rest) =
    if status == text "ok"
    then (if nat_beq (length rest) 1
        then ok tt
        else err (errorf "malformed PushResponse ok status: %s" (line ∷ [])))
    else if status == text "error"
    then (if ltb (length rest) 2
        then err (errorf "malformed PushResponse error status: %s" (line ∷ []))
        else ok tt)
    else err (errorf "malformed Push Response: %s" (line ∷ []))
push_status line [] = ok tt

pub push_line : Text → Result (Unit {0})
unfolding push_status
push_line line =
    if ltb (length (fields line)) 2
    then err (errorf "insufficient number of fields in PushResponse: %s" (line ∷ []))
    else push_status line (fields line)

unfoldable pub receive_push_response_batch : Action Peer (Unit {0})
unfolding responses_loop push_line
receive_push_response_batch p = responses_loop push_line (suc (length p.input.lines)) p

fetch_answer : Text → Result (Unit {0})
fetch_answer line =
    if line == [] then ok tt else err (errorf "unexpected FetchResponse: %s" (line ∷ []))

unfoldable pub receive_fetch_response : Action Peer (Unit {0})
unfolding fetch_answer
receive_fetch_response = do line ← read_line; lift (fetch_answer line)
