-- ===== src/Actions/GitLfs/Present.antt =====
-- A file that the registry has already.
use gnoci.Base.{
  ◌≡◌, ◌≢◌, refl, List, [], ◌∷◌, true, false, Bool-cases, inl, inr, none, base_name, text_eq, ◌==◌,
  nat_beq, nat_beq_iff,
}
use gnoci.Outcome.{ok, crash, deadlock}
use gnoci.Oci.{Descriptor, media_type_lfs_layer}
use gnoci.Model.Lfs.Files.{holds, kept, push_lfs_file-present}
use gnoci.Transfer.{TransferRequest, upload_event}
use gnoci.Transfer.Wire.Responses.{Marshals}
use gnoci.Actions.GitLfs.State.{LfsHost, LfsAction}
use gnoci.Actions.GitLfs.Transfers.{upload_request}
use gnoci.Actions.GitLfs.Uploads.{is_crash, upload_error, first_answer}
use gnoci.Actions.GitLfs.Waits.{upload_request-deadlock}

module _ {C P K N T F D : Type 0} (host : LfsHost C P K N T F D) (m : Marshals host.json) where
  kept-returns : (ds : List Descriptor) (new : Descriptor) → is_crash (kept host.out ds new) ≡ false
  kept-returns [] new = refl
  kept-returns (d ∷ ds) new =
      elim (Bool-cases (host.out.encoded d.digest == host.out.encoded new.digest)) [
        | inl e ↦ elim (Bool-cases (nat_beq d.size new.size)) [
          | inl f ↦ rw (e, f) refl
          | inr f ↦ rw (e, f) refl
        ]
        | inr e ↦ rw e (kept-returns ds new)
      ]

  -- An upload of a file that the LFS manifest has already never ends: where the file is added to the
  -- file store, a layer of the manifest has its encoded digest, JSON prints every response, the
  -- writer takes every write, and the request has an oid, the round waits for ever, and has pushed
  -- nothing; it has written the error response if the layer's size is another, and nothing otherwise.
  pub upload_request-present :
      (subject : Descriptor) (req : TransferRequest) (a : LfsAction T F D) (new : Descriptor)
      (files : F)
      → req.event ≡ upload_event
      → req.oid ≢ []
      → a.wire.out.fault ≡ none
      → host.out.files.add (base_name req.path) media_type_lfs_layer req.path a.session.files
        ≡ (ok new, files)
      → holds host.out a.session.model.lfs_man.layers new ≡ true
      → upload_request host subject req a ≡ (
        crash deadlock,
        record a {
          session = record a.session { files = files };
          wire =
              first_answer host m req.oid
                (upload_error host m (kept host.out a.session.model.lfs_man.layers new))
                a.wire;
        },
      )
  upload_request-present subject req a new files is_upload given open_out added there =
      upload_request-deadlock host m subject req a
        (kept host.out a.session.model.lfs_man.layers new) (record a.session { files = files })
        is_upload given open_out
        (push_lfs_file-present host.out req.path true new files a.session added there)
        (kept-returns a.session.model.lfs_man.layers new)
        ((nat_beq_iff a.session.tickers a.session.tickers).1 refl)
