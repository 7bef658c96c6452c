-- ===== src/Transfer/Reverse.antt =====
-- The other side of the custom transfer protocol, as the tests play it
-- (internal/testutils/revcomms_lfs.go): it sends requests and receives responses.
pub mod Exchange
use gnoci.Base.{
  [], ◌∷◌, Option, none, some, Bool, false, not, ◌&&◌, Text, text_eq, ◌==◌, list_beq, ℤ, pos, List,
  split, nat_beq, ℕ, if◌then◌else◌,
}
use gnoci.Outcome.{
  Result, ok, err, Error, errorf, wrapf, wrap, Action, pure, fail, lift, wrapping, ◌>>=◌, ◌>>◌,
}
use gnoci.Transfer.{
  Event, Operation, init_event, upload_event, download_event, terminate_event, InitRequest,
  TransferRequest, ErrCodeMessage, InitResponse, TransferResponse, validate_init_request,
  validate_transfer_request, validate_transfer_response, validate_progress_response, signed,
}
use gnoci.Transfer.Wire.{Wire, WireCodec, check, deref, write_line}

at_end : Option Error → Result Text
at_end none = ok []
at_end (some e) = err (wrapf "reading single command from git-lfs-remote-oci: %w" [] e)

scan_line : List Text → Wire → Result Text × Wire
unfolding at_end
scan_line [] w = (at_end w.input.fault, w)
scan_line (line ∷ rest) w =
    (ok line, record w { input = record { lines = rest; fault = w.input.fault } })

unfoldable pub read_response : Action Wire Text
unfolding scan_line
read_response w = scan_line w.input.lines w

-- The last test of ReceiveInitResponse
unfoldable pub init_error : ErrCodeMessage → Result (Unit {0})
init_error e =
    if e.message == []
    then ok tt
    else err (
        errorf "received InitResponse error: code = %d, message = %s"
          (signed e.code ∷ e.message ∷ []))

-- The last test of ReceiveTransferResponse
unfoldable pub response_error : Option ErrCodeMessage → Result (Unit {0})
response_error none = ok tt
response_error (some e) =
    if e.message == []
    then ok tt
    else err (
        errorf "received TransferResponse error: code = %d, message = %s"
          (signed e.code ∷ e.message ∷ []))

module _ (json : WireCodec) where
  unfoldable pub send_init_request : Operation → Text → Action Wire (Unit {0})
  send_init_request op remote =
      let req : InitRequest = record {
        event = init_event;
        operation = op;
        remote = remote;
        concurrent = false;
        concurrent_transfers = pos 1;
      } in
      (do
        wrapping "invalid InitRequest: %w" [] (lift (check (validate_init_request req)))
        raw ← lift (wrap "encoding InitRequest: %w" [] (json.marshal_init_request req))
        wrapping "writing InitRequest: %w" [] (write_line raw))

  unfoldable pub receive_init_response : Action Wire (Unit {0})
  receive_init_response = do
    line ← read_response
    found ← lift (wrap "decoding InitRequest: %w" [] (json.unmarshal_init_response line))
    resp ← lift (deref found)
    lift (init_error resp.error)

  -- The part that the two requests to transfer share
  unfoldable pub send_transfer_request : TransferRequest → Action Wire (Unit {0})
  send_transfer_request req = do
    lift (check (validate_transfer_request req))
    raw ← lift (wrap "encoding TransferRequest: %w" [] (json.marshal_transfer_request req))
    wrapping "writing TransferRequest: %w" [] (write_line raw)

  unfoldable pub send_transfer_upload_request : Text → ℤ → Text → Action Wire (Unit {0})
  unfolding send_transfer_request
  send_transfer_upload_request oid size path =
      send_transfer_request (record { event = upload_event; oid = oid; size = size; path = path })

  unfoldable pub send_transfer_download_request : Text → ℤ → Action Wire (Unit {0})
  unfolding send_transfer_request
  send_transfer_download_request oid size =
      send_transfer_request (record { event = download_event; oid = oid; size = size; path = [] })

  unfoldable pub receive_progress_response : Action Wire (Unit {0})
  receive_progress_response = do
    line ← read_response
    found ← lift (wrap "decoding ProgressResponse: %w" [] (json.unmarshal_progress_response line))
    resp ← lift (deref found)
    lift (check (validate_progress_response resp))

  unfoldable pub receive_transfer_response : Event → Action Wire (Unit {0})
  receive_transfer_response response_to = do
    line ← read_response
    found ← lift (wrap "decoding TransferResponse: %w" [] (json.unmarshal_transfer_response line))
    resp ← lift (deref found)
    lift (check (validate_transfer_response response_to resp))
    lift (response_error resp.error)

  unfoldable pub send_terminate_request : Action Wire (Unit {0})
  send_terminate_request = do
    raw ← lift (
        wrap "encoding terminate TransferRequest: %w" [] (
          json.marshal_transfer_request
            (record { event = terminate_event; oid = []; size = pos 0; path = [] })))
    wrapping "writing terminate TransferRequest: %w" [] (write_line raw)
