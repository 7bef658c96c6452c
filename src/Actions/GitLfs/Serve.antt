-- ===== src/Actions/GitLfs/Serve.antt =====
-- Run: from the request to start to the end of the loop.
use gnoci.Base.{[], ◌∷◌, none, some, text_eq, nat_eq, ◌==◌, if◌then◌else◌}
use gnoci.Outcome.{
  Result, ok, err, crash, sentinel, wrapf, invalid_operation, Action, fail, lift, wrapping, attempt,
  within, ◌>>=◌, ◌>>◌,
}
use gnoci.Oci.{Descriptor}
use gnoci.Model.{new_modeler}
use gnoci.Model.Session.{fetch_or_default}
use gnoci.Model.Lfs.{fetch_lfs_or_default}
use gnoci.Transfer.{InitRequest, download_operation, upload_operation}
use gnoci.Transfer.Wire.{receive_init_request, write_init_response}
use gnoci.Actions.GitLfs.State.{LfsHost, LfsAction, Agent, Opened, at_wire, at_session}
use gnoci.Actions.GitLfs.Setup.{init}
use gnoci.Actions.GitLfs.Transfers.{run_upload, run_download}

module _ {C P K N T F D : Type 0} (host : LfsHost C P K N T F D) where
  operate : InitRequest → Descriptor → Action (LfsAction T F D) (Unit {0})
  operate req subject =
      if req.operation == download_operation
      then run_download host
      else if req.operation == upload_operation
      then run_upload host subject
      else fail (wrapf "%w: %s" (req.operation ∷ []) (sentinel invalid_operation))

  after_lfs : InitRequest → Descriptor → Result Descriptor → Action (LfsAction T F D) (Unit {0})
  unfolding operate
  after_lfs req subject (ok desc) = (do
    at_wire (write_init_response host.json none)
    operate req subject)
  after_lfs req subject (err e) = at_wire (write_init_response host.json (some e))
  after_lfs req subject (crash k) = lift (crash k)

  after_base : InitRequest → Result Descriptor → Action (LfsAction T F D) (Unit {0})
  unfolding after_lfs
  after_base req (ok subject) = (do
    found ← attempt (at_session (fetch_lfs_or_default host.out))
    after_lfs req subject found)
  after_base req (err e) =
      at_wire
        (write_init_response host.json (some (wrapf "fetching base git OCI metadata: %w" [] e)))
  after_base req (crash k) = lift (crash k)

  -- Run, once init has succeeded
  unfoldable pub serve : InitRequest → Action (LfsAction T F D) (Unit {0})
  unfolding after_base
  serve req = do found ← attempt (at_session (fetch_or_default host.out)); after_base req found

  -- The errors of the deferred clean-up are logged.
  with_opened : InitRequest → Result (Opened T F) → Action (Agent T F D) (Unit {0})
  with_opened req (err e) a =
      within (λ a. a.wire) (λ a w. record a { wire = w }) (write_init_response host.json (some e)) a
  with_opened req (crash k) a = (crash k, a)
  with_opened req (ok o) a =
      let (r, b) = serve req (record {
        wire = a.wire;
        session = record {
          model = new_modeler o.address.printed;
          target = o.target;
          files = o.files;
          tickers = 0;
        };
        lfs_store = o.lfs_store;
        disk = a.disk;
      }) in
      (
        r,
        record {
          wire = b.wire;
          disk = (host.disk.remove_all b.lfs_store b.disk).1;
          session = some b.session;
        },
      )

  unfoldable pub run : Action (Agent T F D) (Unit {0})
  unfolding with_opened
  run = do
    req ←
        wrapping "receiving InitRequest: %w" []
          (within (λ a. a.wire) (λ a w. record a { wire = w }) (receive_init_request host.json))
    opened ← attempt (within (λ a. a.disk) (λ a d. record a { disk = d }) (init host req))
    with_opened req opened
