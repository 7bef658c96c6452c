-- ===== src/Actions/GitLfs/Downloads.antt =====
-- What git-lfs is told of a download.
use gnoci.Base.{
  ◌≡◌, ◌≢◌, refl, List, [], ℕ, ℤ, none, some, true, false, Text, text_eq, ◌==◌, nat_beq, list_beq,
}
use gnoci.Outcome.{ok, err, Error, wrapf, lift, pure, gets, within, wrapping, attempt, ◌>>=◌}
use gnoci.Model.Session.{Session}
use gnoci.Model.Lfs.{fetch_lfs_layer}
use gnoci.Transfer.{TransferRequest, download_event, terminate_event}
use gnoci.Transfer.Wire.Responses.{
  Marshals, put_line, complete, heard_all, heard_all-fault, write_transfer_download_response-put,
  write_transfer_download_response-unwritten,
}
use gnoci.Actions.GitLfs.State.{LfsHost, LfsAction}
use gnoci.Actions.GitLfs.Transfers.{
  same_size, sha256_digest, wait_done, ticks_since, checked_size, path_of, download_lfs_layer,
  download_request,
}
use gnoci.Actions.GitLfs.Uploads.{write_ticks-heard}

not_last :
    (req : TransferRequest) → req.event ≡ download_event → (req.event == terminate_event) ≡ false
unfolding list_beq
not_last req e = rw e refl

expected :
    (req : TransferRequest) → req.event ≡ download_event → (req.event == download_event) ≡ true
unfolding list_beq
expected req e = rw e refl

module _ {C P K N T F D : Type 0} (host : LfsHost C P K N T F D) (m : Marshals host.json) where
  -- A download that fails is not answered: the response wants a path, so nothing is written after the
  -- progress messages, and the loop ends with an error that wraps the download's.
  pub download_request-unanswered :
      (req : TransferRequest) (a b : LfsAction T F D) (e : Error)
      → req.event ≡ download_event
      → download_lfs_layer host req a ≡ (err e, b)
      → (x : Error) × (download_request host req a
          ≡ (err (wrapf "writing transfer response: %w" [] (Error.join e x)), b))
  unfolding download_request path_of attempt within wrapping pure ◌>>=◌
  download_request-unanswered req a b e is_download failed =
      let (x, unwritten) =
        write_transfer_download_response-unwritten host.json m req.oid e b.wire in
      (x, rw (not_last req is_download, expected req is_download, failed, unwritten) refl)

  -- The file of a download is where the response says: where the layer for the request's oid is
  -- fetched, a ticker is started and ends, the file is opened, and as much is copied as the request
  -- says, JSON prints every response, the writer takes every write, and the oid and the path are not
  -- empty, the round writes the valid progress messages and one response with the path of the file,
  -- and goes on.
  pub download_request-told :
      (req : TransferRequest) (a : LfsAction T F D) (content : Text) (s : Session T F)
      (later : List (ℤ × ℤ)) (opened copied : D) (n : ℕ)
      → req.event ≡ download_event
      → req.oid ≢ []
      → host.platform.join_path a.lfs_store req.oid ≢ []
      → a.wire.out.fault ≡ none
      → fetch_lfs_layer host.out (sha256_digest req.oid) true a.session ≡ (ok content, s)
      → nat_beq s.tickers a.session.tickers ≡ false
      → (host.ticks s).after ≡ some later
      → host.disk.open_file (host.platform.join_path a.lfs_store req.oid) a.disk ≡ (ok tt, opened)
      → host.disk.copy (host.platform.join_path a.lfs_store req.oid) content opened ≡ (ok n, copied)
      → same_size n req.size ≡ true
      → download_request host req a ≡ (
        ok false,
        record a {
          session = s;
          disk = copied;
          wire =
              put_line
                (m.response_raw
                  (complete req.oid (host.platform.join_path a.lfs_store req.oid) none))
                (heard_all host.json m req.oid later
                  (heard_all host.json m req.oid (host.ticks s).before a.wire));
        },
      )
  unfolding download_request download_lfs_layer path_of checked_size wait_done ticks_since gets lift
      attempt within wrapping pure ◌>>=◌
  download_request-told req a content s later opened copied n is_download given path_given open_out
        fetched started ends is_open is_copied sized =
      let path = host.platform.join_path a.lfs_store req.oid in
      let before = heard_all host.json m req.oid (host.ticks s).before a.wire in
      let fine = heard_all-fault host.json m req.oid (host.ticks s).before a.wire open_out in
      rw
        (
          not_last req is_download,
          expected req is_download,
          fetched,
          started,
          write_ticks-heard host m req.oid (host.ticks s).before (record a { session = s })
              open_out,
          is_open,
          is_copied,
          ends,
          write_ticks-heard host m req.oid later
              (record a { session = s; wire = before; disk = copied }) fine,
          sized,
          write_transfer_download_response-put host.json m req.oid path none
              (heard_all host.json m req.oid later before)
              (heard_all-fault host.json m req.oid later before fine) given path_given,
        )
        refl
