-- ===== src/Actions/GitLfs/Waits.antt =====
-- Uploads whose wait for the progress messages never ends.
use gnoci.Base.{◌≡◌, ◌≢◌, refl, [], none, true, false, text_eq, nat_eq, nat_beq}
use gnoci.Outcome.{Result, ok, err, crash, deadlock, lift, attempt, within, gets, pure, ◌>>=◌}
use gnoci.Oci.{Descriptor}
use gnoci.Model.Session.{Session}
use gnoci.Model.Lfs.{push_lfs_file}
use gnoci.Transfer.{TransferRequest, upload_event}
use gnoci.Transfer.Wire.Responses.{Marshals, write_transfer_upload_response-put}
use gnoci.Actions.GitLfs.State.{LfsHost, LfsAction}
use gnoci.Actions.GitLfs.Transfers.{
  write_ticks, wait_done, ticks_since, report_upload, upload_lfs_layer, upload_request,
}
use gnoci.Actions.GitLfs.Uploads.{is_crash, upload_error, first_answer, not_last, expected}

module _ {C P K N T F D : Type 0} (host : LfsHost C P K N T F D) (m : Marshals host.json) where
  upload_lfs_layer-deadlock :
      (req : TransferRequest) (a : LfsAction T F D) (r : Result Descriptor) (s : Session T F)
      → req.oid ≢ []
      → a.wire.out.fault ≡ none
      → push_lfs_file host.out req.path true a.session ≡ (r, s)
      → is_crash r ≡ false
      → nat_beq s.tickers a.session.tickers ≡ true
      → upload_lfs_layer host req a ≡ (
        crash deadlock,
        record a { session = s; wire = first_answer host m req.oid (upload_error host m r) a.wire },
      )
  unfolding upload_lfs_layer report_upload wait_done ticks_since write_ticks attempt within gets
      pure lift ◌>>=◌
  upload_lfs_layer-deadlock req a (ok d) s given open_out e c same = rw (e, same) refl
  upload_lfs_layer-deadlock req a (err x) s given open_out e c same =
      rw
        (
          e,
          same,
          write_transfer_upload_response-put host.json m req.oid (upload_error host m (err x))
              a.wire open_out given,
        )
        refl
  upload_lfs_layer-deadlock req a (crash k) s given open_out e c same = cc

  -- An upload whose push returns, with or without an error, before it has started a ticker never
  -- ends, as the wait for the progress messages does not: where JSON prints every response, the
  -- writer takes every write, and the request has an oid, all that is written is the response with
  -- the push's error, if there is one.
  pub upload_request-deadlock :
      (subject : Descriptor) (req : TransferRequest) (a : LfsAction T F D) (r : Result Descriptor)
      (s : Session T F)
      → req.event ≡ upload_event
      → req.oid ≢ []
      → a.wire.out.fault ≡ none
      → push_lfs_file host.out req.path true a.session ≡ (r, s)
      → is_crash r ≡ false
      → nat_beq s.tickers a.session.tickers ≡ true
      → upload_request host subject req a ≡ (
        crash deadlock,
        record a { session = s; wire = first_answer host m req.oid (upload_error host m r) a.wire },
      )
  unfolding upload_request attempt ◌>>=◌
  upload_request-deadlock subject req a r s is_upload given open_out pushed fine same =
      rw
        (
          not_last host m req is_upload,
          expected host m req is_upload,
          upload_lfs_layer-deadlock req a r s given open_out pushed fine same,
        )
        refl
