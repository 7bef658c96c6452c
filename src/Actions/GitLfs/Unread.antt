-- ===== src/Actions/GitLfs/Unread.antt =====
-- No step of a transfer but the next request reads from git-lfs.
use gnoci.Base.{List, [], ◌∷◌, ◌≡◌, Text, Option, none, some, text_eq, ◌==◌, not, ℤ}
use gnoci.Outcome.{Action, Result, ok, err, crash, Error}
use gnoci.Outcome.Keeps.{
  Keeps, Keeps-attempt, Keeps-bind, Keeps-then, Keeps-lift, Keeps-pure, Keeps-if, Keeps-fail,
  Keeps-wrapping, Keeps-gets, Keeps-part, Keeps-beside,
}
use gnoci.Oci.{Descriptor}
use gnoci.Comms.{Scanner}
use gnoci.Transfer.{
  Event, TransferRequest, TransferResponse, terminate_event, upload_event, download_event,
}
use gnoci.Transfer.Wire.{
  Wire, WireCodec, write_line, answering, write_progress, write_transfer_response,
  write_transfer_upload_response, write_transfer_download_response,
}
use gnoci.Actions.GitLfs.State.{LfsHost, LfsAction, at_wire, at_session, at_disk}
use gnoci.Actions.GitLfs.Transfers.{
  write_ticks, wait_done, report_upload, upload_lfs_layer, download_lfs_layer, upload_request,
  download_request,
}

-- Nothing is read.
module _ (i : Scanner) where
  abbrev pub Unread : Wire → Type 0
  Unread w = w.input ≡ i

  write_line-Unread : (raw : Text) → Keeps Unread (write_line raw)
  unfolding write_line
  write_line-Unread raw = record { after = λ w h. h }

  answering-Unread :
      (e : Option Error) (m : Action Wire (Unit {0}))
      → Keeps Unread m
      → Keeps Unread (answering e m)
  unfolding answering
  answering-Unread e m k = record { after = λ w h. k.after w h }

  module _ (json : WireCodec) where
    write_progress-Unread : (oid : Text) (n m : ℤ) → Keeps Unread (write_progress json oid n m)
    unfolding write_progress
    write_progress-Unread oid n m =
        Keeps-then _ _ (Keeps-lift _)
          (Keeps-bind _ _ (Keeps-lift _) λ raw. Keeps-wrapping _ _ _ (write_line-Unread raw))

    write_transfer_response-Unread :
        (to : Event) (r : TransferResponse) (e : Option Error)
        → Keeps Unread (write_transfer_response json to r e)
    unfolding write_transfer_response
    write_transfer_response-Unread to r e =
        Keeps-then _ _
          (answering-Unread e _ (
            Keeps-then _ _ (Keeps-lift _)
              (Keeps-bind _ _ (Keeps-lift _) λ raw. Keeps-wrapping _ _ _ (write_line-Unread raw))))
          (Keeps-lift _)

    upload_response-Unread :
        (oid : Text) (e : Option Error) → Keeps Unread (write_transfer_upload_response json oid e)
    unfolding write_transfer_upload_response
    upload_response-Unread oid e = write_transfer_response-Unread _ _ e

    download_response-Unread :
        (oid path : Text) (e : Option Error)
        → Keeps Unread (write_transfer_download_response json oid path e)
    unfolding write_transfer_download_response
    download_response-Unread oid path e = write_transfer_response-Unread _ _ e

module _ {C P K N T F D : Type 0} (host : LfsHost C P K N T F D) (i : Scanner) where
  abbrev pub InputIs : LfsAction T F D → Type 0
  InputIs a = a.wire.input ≡ i

  wire-InputIs : {A : Type 0} (m : Action Wire A) → Keeps (Unread i) m → Keeps InputIs (at_wire m)
  wire-InputIs m k = Keeps-part _ _ (Unread i) m k (λ a w h. h)

  session-InputIs : {A : Type 0} (m : Action _ A) → Keeps InputIs (at_session m)
  session-InputIs m = Keeps-beside _ _ InputIs m (λ a s h. h)

  disk-InputIs : {A : Type 0} (m : Action D A) → Keeps InputIs (at_disk m)
  disk-InputIs m = Keeps-beside _ _ InputIs m (λ a d h. h)

  write_ticks-InputIs :
      (oid : Text) (ticks : List (ℤ × ℤ)) → Keeps InputIs (write_ticks host oid ticks)
  unfolding write_ticks
  write_ticks-InputIs oid [] = Keeps-pure tt
  write_ticks-InputIs oid ((n, m) ∷ ticks) =
      Keeps-then _ _ (Keeps-attempt _ (wire-InputIs _ (write_progress-Unread i host.json oid n m)))
        (write_ticks-InputIs oid ticks)

  wait_done-InputIs :
      (oid : Text) (ticks : Option (List (ℤ × ℤ))) → Keeps InputIs (wait_done host oid ticks)
  unfolding wait_done
  wait_done-InputIs oid none = Keeps-lift _
  wait_done-InputIs oid (some ticks) = write_ticks-InputIs oid ticks

  report_upload-InputIs :
      (oid : Text) (r : Result Descriptor) → Keeps InputIs (report_upload host oid r)
  unfolding report_upload
  report_upload-InputIs oid (ok d) = Keeps-pure _
  report_upload-InputIs oid (err e) =
      Keeps-attempt _ (wire-InputIs _ (upload_response-Unread i host.json oid _))
  report_upload-InputIs oid (crash k) = Keeps-lift _

  upload_lfs_layer-InputIs : (req : TransferRequest) → Keeps InputIs (upload_lfs_layer host req)
  unfolding upload_lfs_layer
  upload_lfs_layer-InputIs req = Keeps-bind _ _ (Keeps-gets _) λ found.
      Keeps-bind _ _ (Keeps-attempt _ (session-InputIs _)) λ pushed.
        Keeps-bind _ _ (Keeps-gets _) λ ticks. Keeps-then _ _ (write_ticks-InputIs req.oid _) (
          Keeps-bind _ _ (report_upload-InputIs req.oid _)
            λ reported. Keeps-then _ _ (wait_done-InputIs req.oid _) (Keeps-lift _))

  download_lfs_layer-InputIs : (req : TransferRequest) → Keeps InputIs (download_lfs_layer host req)
  unfolding download_lfs_layer
  download_lfs_layer-InputIs req = Keeps-bind _ _ (Keeps-gets _) λ found.
      Keeps-bind _ _ (Keeps-wrapping _ _ _ (session-InputIs _)) λ content.
        Keeps-bind _ _ (Keeps-gets _) λ ticks. Keeps-bind _ _ (Keeps-gets _) λ path.
          Keeps-then _ _ (write_ticks-InputIs req.oid _) (
            Keeps-then _ _ (Keeps-wrapping _ _ _ (disk-InputIs _)) (
              Keeps-bind _ _ (Keeps-attempt _ (disk-InputIs _)) λ copied.
                Keeps-then _ _ (wait_done-InputIs req.oid _)
                  (Keeps-bind _ _ (Keeps-lift _) λ n. Keeps-lift _)))

  pub upload_request-InputIs :
      (subject : Descriptor) (req : TransferRequest)
      → Keeps InputIs (upload_request host subject req)
  unfolding upload_request
  upload_request-InputIs subject req =
      Keeps-if (req.event == terminate_event) _ _
        (λ _. Keeps-then _ _ (Keeps-wrapping _ _ _ (session-InputIs _)) (Keeps-pure _))
        λ _.
          Keeps-if (not (req.event == upload_event)) _ _ (λ _. Keeps-fail _)
            λ _. Keeps-bind _ _ (Keeps-attempt _ (upload_lfs_layer-InputIs req)) λ uploaded.
              Keeps-then _ _
                (Keeps-wrapping _ _ _
                  (wire-InputIs _ (upload_response-Unread i host.json req.oid _)))
                (Keeps-pure _)

  pub download_request-InputIs : (req : TransferRequest) → Keeps InputIs (download_request host req)
  unfolding download_request
  download_request-InputIs req =
      Keeps-if (req.event == terminate_event) _ _ (λ _. Keeps-pure _)
        λ _.
          Keeps-if (not (req.event == download_event)) _ _ (λ _. Keeps-fail _)
            λ _. Keeps-bind _ _ (Keeps-attempt _ (download_lfs_layer-InputIs req)) λ got.
              Keeps-then _ _
                (Keeps-wrapping _ _ _
                  (wire-InputIs _ (download_response-Unread i host.json req.oid _ _)))
                (Keeps-pure _)
