-- ===== src/Transfer/Wire.antt =====
-- The communicator of the custom transfer protocol (pkg/protocol/lfs/comms/comms.go). Each message is
-- one line of JSON.
pub mod Responses
use gnoci.Base.{List, [], ◌∷◌, ◌++◌, Option, none, some, Text, text, ℤ, pos}
use gnoci.Outcome.{
  Result, ok, err, crash, Error, join_all, wrapf, wrap, message, nil_dereference, Action, pure,
  fail, lift, wrapping, ◌>>=◌, ◌>>◌,
}
use gnoci.Comms.{Scanner, Writer, put_text}
use gnoci.Transfer.{
  Event, complete_event, progress_event, download_event, upload_event, InitRequest, ErrCodeMessage,
  InitResponse, TransferRequest, TransferResponse, ProgressResponse, validate_init_request,
  validate_transfer_response, validate_progress_response,
}

-- encoding/json at the types of the protocol. What is read is a pointer, which the text `null`
-- leaves nil.
pub record WireCodec : Type 0 where
  pub marshal_init_request : InitRequest → Result Text
  pub marshal_transfer_request : TransferRequest → Result Text
  pub marshal_init_response : InitResponse → Result Text
  pub marshal_progress_response : ProgressResponse → Result Text
  pub marshal_transfer_response : TransferResponse → Result Text
  pub unmarshal_init_request : Text → Result (Option InitRequest)
  pub unmarshal_transfer_request : Text → Result (Option TransferRequest)
  pub unmarshal_init_response : Text → Result (Option InitResponse)
  pub unmarshal_progress_response : Text → Result (Option ProgressResponse)
  pub unmarshal_transfer_response : Text → Result (Option TransferResponse)

pub record Wire : Type 0 where
  pub input : Scanner
  pub out : Writer

-- What Scan, Err and Bytes give together; the end of the input is an empty line.
unfoldable pub at_end : Option Error → Result Text
at_end none = ok []
at_end (some e) = err (wrapf "reading single command from git-lfs: %w" [] e)

unfoldable pub scan_line : List Text → Wire → Result Text × Wire
unfolding at_end
scan_line [] w = (at_end w.input.fault, w)
scan_line (line ∷ rest) w =
    (ok line, record w { input = record { lines = rest; fault = w.input.fault } })

unfoldable pub read_line : Action Wire Text
unfolding scan_line
read_line w = scan_line w.input.lines w

abbrev with_newline : Text → Text
with_newline line = line ++ (b'\n' ∷ [])

-- c.out.Write(withNewline(raw))
unfoldable pub write_line : Text → Action Wire (Unit {0})
unfolding put_text
write_line raw w =
    let (r, o) = put_text w.out.fault (with_newline raw) w.out in (r, record w { out = o })

-- A use of the pointer
abbrev pub deref : {A : Type 0} → Option A → Result A
deref none = crash nil_dereference
deref (some a) = ok a

-- `if err != nil { return err }`
abbrev pub check : Option Error → Result (Unit {0})
check none = ok tt
check (some e) = err e

-- errors.Join(first, err), where err is not nil
abbrev pub joining : {A : Type 0} → Option Error → Result A → Result A
joining none r = r
joining (some first) (err e) = err (Error.join first e)
joining (some first) r = r

abbrev pub coded : Error → ErrCodeMessage
coded e = record { code = pos 1; message = message e }

abbrev pub coded_or_nil : Option Error → Option ErrCodeMessage
coded_or_nil none = none
coded_or_nil (some e) = some (coded e)

-- The end of a method that answers: what went wrong with the answer is joined to the error that it
-- reports, which is returned in any case.
unfoldable pub answering : Option Error → Action Wire (Unit {0}) → Action Wire (Unit {0})
answering e m w = let (r, v) = m w in (joining e r, v)

module _ (json : WireCodec) where
  unfoldable pub receive_init_request : Action Wire InitRequest
  receive_init_request = do
    line ← read_line
    found ← lift (wrap "decoding InitRequest: %w" [] (json.unmarshal_init_request line))
    init_req ← lift (deref found)
    lift (check (validate_init_request init_req))
    pure init_req

  -- The request is not validated, and may be nil.
  unfoldable pub receive_transfer_request : Action Wire (Option TransferRequest)
  receive_transfer_request = do
    line ← wrapping "reading TransferRequest: %w" [] read_line
    lift (wrap "decoding TransferRequest: %w" [] (json.unmarshal_transfer_request line))

  -- The text of an InitResponse to the error, if there is one
  unfoldable pub init_response_raw : Option Error → Result Text
  init_response_raw none = ok (text "{}")
  init_response_raw (some e) =
      wrap "encoding init response: %w" [] (json.marshal_init_response (record { error = coded e }))

  unfoldable pub write_init_response : Option Error → Action Wire (Unit {0})
  unfolding init_response_raw answering
  write_init_response e = do
    answering e (do
      raw ← lift (init_response_raw e)
      wrapping "writing init response: %w" [] (write_line raw))
    lift (check e)

  unfoldable pub write_progress : Text → ℤ → ℤ → Action Wire (Unit {0})
  write_progress oid so_far since_last =
      let resp : ProgressResponse = record {
        event = progress_event;
        oid = oid;
        bytes_so_far = so_far;
        bytes_since_last = since_last;
      } in
      (do
        lift (check (validate_progress_response resp))
        raw ← lift (wrap "encoding progress response: %w" [] (json.marshal_progress_response resp))
        wrapping "writing progress response: %w" [] (write_line raw))

  -- The part that the two responses to a transfer share, from Validate on
  unfoldable pub write_transfer_response :
      Event → TransferResponse → Option Error → Action Wire (Unit {0})
  unfolding answering
  write_transfer_response to resp e = do
    answering e (do
      lift (check (validate_transfer_response to resp))
      raw ← lift (wrap "encoding transfer response: %w" [] (json.marshal_transfer_response resp))
      wrapping "writing transfer response: %w" [] (write_line raw))
    lift (check e)

  unfoldable pub write_transfer_upload_response : Text → Option Error → Action Wire (Unit {0})
  unfolding write_transfer_response
  write_transfer_upload_response oid e =
      write_transfer_response upload_event
        (record { event = complete_event; oid = oid; path = []; error = coded_or_nil e }) e

  unfoldable pub write_transfer_download_response :
      Text → Text → Option Error → Action Wire (Unit {0})
  unfolding write_transfer_response
  write_transfer_download_response oid path e =
      write_transfer_response download_event
        (record { event = complete_event; oid = oid; path = path; error = coded_or_nil e }) e
