-- ===== src/Transfer/Reverse/Exchange.antt =====
-- What one side sends, the other receives.
use gnoci.Base.{
  ◌≡◌, ◌≢◌, refl, ap, [], ◌∷◌, ◌++◌, Option, none, some, Text, text_eq, ℤ, pos, ◌==◌, if◌then◌else◌,
}
use gnoci.Outcome.{Result, ok, err, Error, errorf, message, lift, wrapping, ◌>>=◌}
use gnoci.Pipe.{IsLine, scanned, scanned-joined}
use gnoci.Transfer.{upload_event, TransferRequest, TransferResponse, signed}
use gnoci.Transfer.Valid.{
  IsTransfer, validate_transfer_request-Reports, validate_transfer_response-Reports,
}
use gnoci.Transfer.Wire.{
  Wire, WireCodec, coded_or_nil, read_line, scan_line, receive_transfer_request,
  write_transfer_upload_response,
}
use gnoci.Transfer.Wire.Responses.{
  Marshals, put_line, complete, write_line-put, write_transfer_upload_response-put,
}
use gnoci.Transfer.Reverse.{
  send_transfer_request, send_transfer_upload_request, read_response, receive_transfer_response,
  response_error,
}

-- JSON prints the message on one line, from which it is read again.
pub record CarriesRequest (json : WireCodec) (r : TransferRequest) : Type 0 where
  pub raw : Text
  pub printed : json.marshal_transfer_request r ≡ ok raw
  pub is_line : IsLine raw
  pub back : json.unmarshal_transfer_request raw ≡ ok (some r)

pub record CarriesResponse (json : WireCodec) (m : Marshals json) (r : TransferResponse)
    : Type 0 where
  pub is_line : IsLine (m.response_raw r)
  pub back : json.unmarshal_transfer_response (m.response_raw r) ≡ ok (some r)

-- The reader's side, once it is given all that the writer's side has written
abbrev pub fed : Wire → Wire → Wire
fed from to = record to { input = record { lines = scanned from.out.written; fault = none } }

scanned-line : (t : Text) → IsLine t → scanned (t ++ (b'\n' ∷ [])) ≡ t ∷ []
scanned-line t h = scanned-joined (t ∷ []) (h, tt)

module _ (json : WireCodec) where
  send-put :
      (req : TransferRequest) (w : Wire)
      → w.out.fault ≡ none
      → IsTransfer req
      → (carried : CarriesRequest json req)
      → send_transfer_request json req w ≡ (ok tt, put_line carried.raw w)
  unfolding send_transfer_request lift wrapping ◌>>=◌
  send-put req w h valid carried =
      rw
        (
          (validate_transfer_request-Reports req).nil.1 valid,
          carried.printed,
          write_line-put carried.raw w h,
        )
        refl

  -- A request to upload that git-lfs sends over a fresh pipe is the one that the agent receives, with
  -- nothing behind it: where the writer takes every write, the oid and the path are not empty, the size
  -- is at least one, and JSON prints the request on one line from which it reads it again.
  pub receive-send_transfer_upload_request :
      (oid : Text) (size : ℤ) (path : Text) (w v : Wire)
      → w.out.fault ≡ none
      → w.out.written ≡ []
      → IsTransfer (record { event = upload_event; oid = oid; size = size; path = path })
      → CarriesRequest json (record { event = upload_event; oid = oid; size = size; path = path })
      → receive_transfer_request json (fed (send_transfer_upload_request json oid size path w).1 v)
        ≡ (
          ok (some (record { event = upload_event; oid = oid; size = size; path = path })),
          record v { input = record { lines = []; fault = none } },
        )
  unfolding send_transfer_upload_request receive_transfer_request read_line scan_line lift wrapping
      ◌>>=◌
  receive-send_transfer_upload_request oid size path w v h fresh valid carried =
      let req : TransferRequest = record {
        event = upload_event;
        oid = oid;
        size = size;
        path = path;
      } in
      rw
        (
          send-put req w h valid carried,
          fresh,
          scanned-line carried.raw carried.is_line,
          carried.back,
        )
        refl

  -- What git-lfs makes of the error of an upload
  abbrev pub heard_error : Option Error → Result (Unit {0})
  heard_error none = ok tt
  heard_error (some e) =
      if message e == []
      then ok tt
      else err (
          errorf "received TransferResponse error: code = %d, message = %s"
            (signed (pos 1) ∷ message e ∷ []))

  told : (e : Option Error) → response_error (coded_or_nil e) ≡ heard_error e
  unfolding response_error
  told none = refl
  told (some x) = refl

  -- The response to an upload that the agent writes to a fresh pipe tells git-lfs whether the upload
  -- has failed: where the writer takes every write, the oid is not empty, and JSON prints responses,
  -- this one on one line from which it reads it again, git-lfs receives an error exactly when the agent reports one whose text is not empty, with that text, and
  -- nothing is behind the response.
  pub receive-write_transfer_upload_response :
      (m : Marshals json) (oid : Text) (e : Option Error) (w v : Wire)
      → w.out.fault ≡ none
      → w.out.written ≡ []
      → oid ≢ []
      → CarriesResponse json m (complete oid [] e)
      → receive_transfer_response json upload_event
          (fed (write_transfer_upload_response json oid e w).1 v)
        ≡ (heard_error e, record v { input = record { lines = []; fault = none } })
  unfolding receive_transfer_response read_response lift wrapping ◌>>=◌
  receive-write_transfer_upload_response m oid e w v h fresh given carried =
      let resp = complete oid [] e in
      rw
        (
          write_transfer_upload_response-put json m oid e w h given,
          fresh,
          scanned-line (m.response_raw resp) carried.is_line,
          carried.back,
          (validate_transfer_response-Reports upload_event resp).nil.1
              (record { event_is = refl; oid_given = given; path_given = λ n. cc }),
        )
        (ap (λ r. (r, record v { input = record { lines = []; fault = none } })) (told e))
