-- ===== src/Actions/GitLfs/Transfers.antt =====
-- The loops over requests: runUpload, runDownload, uploadLFSLayer and downloadLFSLayer.
use gnoci.Base.{
  ℕ, suc, List, [], ◌∷◌, ◌++◌, Option, none, some, Bool, true, false, not, Text, text, text_eq,
  nat_eq, nat_beq, ◌==◌, length, decimal, ℤ, pos, negsuc, if◌then◌else◌,
}
use gnoci.Outcome.{
  Result, ok, err, crash, Error, errorf, wrapf, deadlock, Action, pure, fail, lift, gets, wrapping,
  attempt, wrap, ◌>>=◌, ◌>>◌,
}
use gnoci.Outcome.Rounds.{rounds}
use gnoci.Oci.{Descriptor}
use gnoci.Model.Session.{Session}
use gnoci.Model.Lfs.{fetch_lfs_layer, push_lfs_manifest, push_lfs_file}
use gnoci.Transfer.{TransferRequest, download_event, upload_event, terminate_event, signed}
use gnoci.Transfer.Wire.{
  deref, receive_transfer_request, write_progress, write_transfer_upload_response,
  write_transfer_download_response,
}
use gnoci.Actions.GitLfs.State.{Ticks, LfsHost, LfsAction, at_wire, at_session, at_disk}

abbrev pub same_size : ℕ → ℤ → Bool
same_size n (pos m) = nat_beq n m
same_size n (negsuc m) = false

abbrev pub error_of : {A : Type 0} → Result A → Option Error
error_of (err e) = some e
error_of _ = none

abbrev pub sha256_digest : Text → Text
sha256_digest oid = text "sha256:" ++ oid

module _ {C P K N T F D : Type 0} (host : LfsHost C P K N T F D) where
  -- The progress goroutine on these ticks; an error is logged.
  unfoldable pub write_ticks : Text → List (ℤ × ℤ) → Action (LfsAction T F D) (Unit {0})
  write_ticks oid [] = pure tt
  write_ticks oid ((total, delta) ∷ ticks) = do
    attempt (at_wire (write_progress host.json oid total delta))
    write_ticks oid ticks

  -- `<-done`
  unfoldable pub wait_done : Text → Option (List (ℤ × ℤ)) → Action (LfsAction T F D) (Unit {0})
  unfolding write_ticks
  wait_done oid none = lift (crash deadlock)
  wait_done oid (some ticks) = write_ticks oid ticks

  -- The ticks of a call that found so many tickers and left the session
  unfoldable pub ticks_since : ℕ → Session T F → Ticks
  ticks_since found s =
      if s.tickers == found then record { before = []; after = none } else host.ticks s

  -- The first answer to a request that failed; it is answered a second time by the loop.
  unfoldable pub report_upload :
      Text → Result Descriptor → Action (LfsAction T F D) (Result (Unit {0}))
  report_upload oid (ok desc) = pure (ok tt)
  report_upload oid (err e) = attempt (
      at_wire (
        write_transfer_upload_response host.json oid
          (some (wrapf "preparing git-lfs file for transfer: %w" [] e))))
  report_upload oid (crash k) = lift (crash k)

  unfoldable pub upload_lfs_layer : TransferRequest → Action (LfsAction T F D) (Unit {0})
  unfolding ticks_since wait_done write_ticks report_upload
  upload_lfs_layer req = do
    found ← gets (λ a. a.session.tickers)
    pushed ← attempt (at_session (push_lfs_file host.out req.path true))
    ticks ← gets (λ a. ticks_since found a.session)
    write_ticks req.oid ticks.before
    reported ← report_upload req.oid pushed
    wait_done req.oid ticks.after
    lift reported

  unfoldable pub checked_size : TransferRequest → Text → ℕ → Result Text
  checked_size req path n =
      if same_size n req.size
      then ok path
      else err (
          errorf "unexpected LFS file size, expected %d, got %d" (signed req.size ∷ decimal n ∷ []))

  unfoldable pub download_lfs_layer : TransferRequest → Action (LfsAction T F D) Text
  unfolding ticks_since wait_done write_ticks checked_size
  download_lfs_layer req = do
    found ← gets (λ a. a.session.tickers)
    content ←
        wrapping "fetching LFS file: %w" []
          (at_session (fetch_lfs_layer host.out (sha256_digest req.oid) true))
    ticks ← gets (λ a. ticks_since found a.session)
    path ← gets (λ a. host.platform.join_path a.lfs_store req.oid)
    write_ticks req.oid ticks.before
    wrapping "opening LFS temp file: %w" [] (at_disk (host.disk.open_file path))
    copied ← attempt (at_disk (host.disk.copy path content))
    wait_done req.oid ticks.after
    n ← lift (wrap "copying LFS temp file: %w" [] copied)
    lift (checked_size req path n)

  unfoldable pub unexpected : TransferRequest → Text → Error
  unexpected req expected = errorf "unexpected event %s, expected %s" (req.event ∷ expected ∷ [])

  -- The result says that the request was the last.
  unfoldable pub upload_request : Descriptor → TransferRequest → Action (LfsAction T F D) Bool
  unfolding unexpected
  upload_request subject req =
      let finished = (do
        wrapping "pushing LFS manifest to OCI: %w" []
            (at_session (push_lfs_manifest host.out subject))
        pure true) in
      let answered = (do
        uploaded ← attempt (upload_lfs_layer req)
        wrapping "writing transfer response: %w" []
            (at_wire (write_transfer_upload_response host.json req.oid (error_of uploaded)))
        pure false) in
      if req.event == terminate_event
      then finished
      else if not (req.event == upload_event)
      then fail (unexpected req upload_event)
      else answered

  unfoldable pub path_of : Result Text → Text
  path_of (ok path) = path
  path_of _ = []

  unfoldable pub download_request : TransferRequest → Action (LfsAction T F D) Bool
  unfolding unexpected path_of
  download_request req =
      let answered = (do
        got ← attempt (download_lfs_layer req)
        wrapping "writing transfer response: %w" [] (
            at_wire
              (write_transfer_download_response host.json req.oid (path_of got) (error_of got)))
        pure false) in
      if req.event == terminate_event
      then pure true
      else if not (req.event == download_event)
      then fail (unexpected req download_event)
      else answered

  -- The next request; its event is read through the pointer.
  unfoldable pub next_request : Action (LfsAction T F D) TransferRequest
  next_request = do found ← at_wire (receive_transfer_request host.json); lift (deref found)

  unfoldable pub upload_round : Descriptor → Action (LfsAction T F D) Bool
  upload_round subject = do req ← next_request; upload_request subject req

  unfoldable pub download_round : Action (LfsAction T F D) Bool
  download_round = do req ← next_request; download_request req

  -- Every round but the last reads a line.
  unfoldable pub run_upload : Descriptor → Action (LfsAction T F D) (Unit {0})
  run_upload subject a = rounds (upload_round subject) (suc (length a.wire.input.lines)) a

  unfoldable pub run_download : Action (LfsAction T F D) (Unit {0})
  run_download a = rounds download_round (suc (length a.wire.input.lines)) a
