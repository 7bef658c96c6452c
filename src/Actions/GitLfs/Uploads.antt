-- ===== src/Actions/GitLfs/Uploads.antt =====
-- What git-lfs is told of an upload.
use gnoci.Base.{
  ◌≡◌, ◌≢◌, refl, List, [], ◌∷◌, Option, none, some, Bool, true, false, Text, text_eq, ℤ, ◌==◌,
  nat_eq, nat_beq, list_beq,
}
use gnoci.Outcome.{
  Result, ok, err, crash, Error, wrapf, lift, wrapping, attempt, within, gets, pure, ◌>>=◌,
}
use gnoci.Oci.{Descriptor}
use gnoci.Model.Session.{Session}
use gnoci.Model.Lfs.{push_lfs_file}
use gnoci.Transfer.{validate_progress_response, TransferRequest, upload_event, terminate_event}
use gnoci.Transfer.Wire.{Wire, check}
use gnoci.Transfer.Wire.Responses.{
  Marshals, caught-check, put_line, complete, heard_all, heard_all-fault, write_progress-heard,
  write_transfer_upload_response-put,
}
use gnoci.Actions.GitLfs.State.{LfsHost, LfsAction}
use gnoci.Actions.GitLfs.Transfers.{
  write_ticks, wait_done, ticks_since, report_upload, upload_lfs_layer, upload_request,
}

abbrev pub is_crash : {A : Type 0} → Result A → Bool
is_crash (crash k) = true
is_crash _ = false

module _ {C P K N T F D : Type 0} (host : LfsHost C P K N T F D) (m : Marshals host.json) where
  abbrev with_wire : Wire → LfsAction T F D → LfsAction T F D
  with_wire w a = record a { wire = w }

  pub write_ticks-heard :
      (oid : Text) (ticks : List (ℤ × ℤ)) (a : LfsAction T F D)
      → a.wire.out.fault ≡ none
      → write_ticks host oid ticks a
        ≡ (ok tt, record a { wire = heard_all host.json m oid ticks a.wire })
  unfolding write_ticks pure attempt within ◌>>=◌
  write_ticks-heard oid [] a h = refl
  write_ticks-heard oid ((total, delta) ∷ ticks) a h =
      rw
        (
          write_progress-heard host.json m oid total delta a.wire h,
          caught-check (validate_progress_response _),
        )
        (write_ticks-heard oid ticks _
          (heard_all-fault host.json m oid ((total, delta) ∷ []) a.wire h))

  -- The error that uploadLFSLayer reports, if the file is not pushed
  abbrev pub upload_error : Result Descriptor → Option Error
  upload_error (err e) = some (wrapf "preparing git-lfs file for transfer: %w" [] e)
  upload_error _ = none

  -- The line that ends a transfer
  abbrev pub last_line : Text → Option Error → Wire → Wire
  last_line oid e w = put_line (m.response_raw (complete oid [] e)) w

  abbrev pub first_answer : Text → Option Error → Wire → Wire
  first_answer oid none w = w
  first_answer oid (some e) w = last_line oid (some e) w

  first_answer-fault :
      (oid : Text) (e : Option Error) (w : Wire)
      → w.out.fault ≡ none
      → (first_answer oid e w).out.fault ≡ none
  first_answer-fault oid none w h = h
  first_answer-fault oid (some e) w h = h

  -- What is written for an upload with these ticks
  abbrev pub told : Text → Option Error → List (ℤ × ℤ) → List (ℤ × ℤ) → Wire → Wire
  told oid e before after w =
      last_line oid e
        (heard_all host.json m oid after (first_answer oid e (heard_all host.json m oid before w)))

  module _ (req : TransferRequest) (subject : Descriptor) (a : LfsAction T F D) (s : Session T F)
      (later : List (ℤ × ℤ)) (open_out : a.wire.out.fault ≡ none) (given : req.oid ≢ [])
      (started : nat_beq s.tickers a.session.tickers ≡ false)
      (ends : (host.ticks s).after ≡ some later) where
    abbrev heard_before : Wire
    heard_before = heard_all host.json m req.oid (host.ticks s).before a.wire

    upload_lfs_layer-told :
        (r : Result Descriptor)
        → push_lfs_file host.out req.path true a.session ≡ (r, s)
        → is_crash r ≡ false
        → upload_lfs_layer host req a ≡ (
          check (upload_error r),
          record a {
            session = s;
            wire =
                heard_all host.json m req.oid later
                  (first_answer req.oid (upload_error r) heard_before);
          },
        )
    unfolding upload_lfs_layer report_upload wait_done ticks_since attempt within gets pure lift
        ◌>>=◌
    upload_lfs_layer-told (ok d) e c =
        rw
          (
            e,
            started,
            write_ticks-heard req.oid (host.ticks s).before (record a { session = s }) open_out,
            ends,
            write_ticks-heard req.oid later (record a { session = s; wire = heard_before })
                (heard_all-fault host.json m req.oid (host.ticks s).before a.wire open_out),
          )
          refl
    upload_lfs_layer-told (err x) e c =
        let fine = heard_all-fault host.json m req.oid (host.ticks s).before a.wire open_out in
        rw
          (
            e,
            started,
            write_ticks-heard req.oid (host.ticks s).before (record a { session = s }) open_out,
            ends,
            write_transfer_upload_response-put host.json m req.oid (upload_error (err x))
                heard_before fine given,
            write_ticks-heard req.oid later
                (record a {
                  session = s;
                  wire = last_line req.oid (upload_error (err x)) heard_before;
                })
                fine,
          )
          refl
    upload_lfs_layer-told (crash k) e c = cc

  -- How the round ends: it goes on, or the error of the upload ends the loop.
  abbrev pub round_end : Option Error → Result Bool
  round_end none = ok false
  round_end (some e) = err (wrapf "writing transfer response: %w" [] e)

  pub not_last :
      (req : TransferRequest) → req.event ≡ upload_event → (req.event == terminate_event) ≡ false
  unfolding list_beq
  not_last req e = rw e refl

  pub expected :
      (req : TransferRequest) → req.event ≡ upload_event → (req.event == upload_event) ≡ true
  unfolding list_beq
  expected req e = rw e refl

  answer-told :
      (subject : Descriptor) (req : TransferRequest) (a b : LfsAction T F D) (o : Option Error)
      → req.event ≡ upload_event
      → upload_lfs_layer host req a ≡ (check o, b)
      → b.wire.out.fault ≡ none
      → req.oid ≢ []
      → upload_request host subject req a
        ≡ (round_end o, record b { wire = last_line req.oid o b.wire })
  unfolding upload_request attempt within wrapping pure ◌>>=◌
  answer-told subject req a b none is_upload e h given =
      rw
        (
          not_last req is_upload,
          expected req is_upload,
          e,
          write_transfer_upload_response-put host.json m req.oid none b.wire h given,
        )
        refl
  answer-told subject req a b (some x) is_upload e h given =
      rw
        (
          not_last req is_upload,
          expected req is_upload,
          e,
          write_transfer_upload_response-put host.json m req.oid (some x) b.wire h given,
        )
        refl

  -- An upload request is answered after its progress: where the model's push of the file returns
  -- without a panic and has started a ticker that ends, JSON prints every response, the writer takes
  -- every write, and the request has an oid, the round writes the valid progress messages of the
  -- ticker and one response that says the upload is complete, and goes on. If the push failed, it
  -- writes the response with its error twice, before and after the last messages, and ends the loop
  -- with that error.
  pub upload_request-told :
      (subject : Descriptor) (req : TransferRequest) (a : LfsAction T F D) (r : Result Descriptor)
      (s : Session T F) (later : List (ℤ × ℤ))
      → req.event ≡ upload_event
      → req.oid ≢ []
      → a.wire.out.fault ≡ none
      → push_lfs_file host.out req.path true a.session ≡ (r, s)
      → is_crash r ≡ false
      → nat_beq s.tickers a.session.tickers ≡ false
      → (host.ticks s).after ≡ some later
      → upload_request host subject req a ≡ (
        round_end (upload_error r),
        record a {
          session = s;
          wire = told req.oid (upload_error r) (host.ticks s).before later a.wire;
        },
      )
  upload_request-told subject req a r s later is_upload given open_out pushed fine started ends =
      answer-told subject req a _ (upload_error r) is_upload
        (upload_lfs_layer-told req subject a s later open_out given started ends r pushed fine)
        (heard_all-fault host.json m req.oid later _ (
          first_answer-fault req.oid (upload_error r) _
            (heard_all-fault host.json m req.oid (host.ticks s).before a.wire open_out)))
        given
