-- ===== src/Model/Lfs.antt =====
-- The LFS data model (internal/model/modeler_lfs.go, internal/model/referrers.go).
pub mod Updates
pub mod Files
use gnoci.Base.{
  ◌+◌, List, [], ◌∷◌, ◌++◌, Option, none, some, Bool, true, false, Text, text_eq, nat_eq, ◌==◌,
  nat_beq, length, decimal, base_name, if◌then◌else◌,
}
use mathlib.Core.List.{reverse}
use gnoci.Outcome.{
  Result, ok, err, crash, Error, sentinel, errorf, wrapf, is, not_found, lfs_manifest_not_found,
  layer_not_in_manifest, Action, pure, fail, lift, gets, asks, wrapping, attempt, within, wrap,
  ◌>>=◌, ◌>>◌,
}
use gnoci.Oci.{
  Descriptor, empty_descriptor, empty_manifest, artifact_type_lfs_manifest, media_type_lfs_layer,
}
use gnoci.Model.Session.{
  Outside, Session, epoch, descriptor_or_empty, with_model, with_target, with_files, edit_model,
}

-- The switch of `referrer`, over both results of registry.Referrers
unfoldable pub choose_referrer : List Descriptor × Option Error → Result Descriptor
choose_referrer ([], e) = err (sentinel lfs_manifest_not_found)
choose_referrer (a ∷ [], none) = ok a
choose_referrer (a ∷ [], some e) = err (wrapf "resolving commit manifest predecessors: %w" [] e)
choose_referrer (a ∷ b ∷ rest, e) =
    err (errorf "expected 1 LFS referrer, got %d" (decimal (length (a ∷ b ∷ rest)) ∷ []))

unfoldable pub size_error : Descriptor → Descriptor → Error
size_error old new =
    errorf
      "found an existing LFS object digest with different size: digest = %s, existing file size = %d, got file size = %d"
      (old.digest ∷ decimal old.size ∷ decimal new.size ∷ [])

module _ {T F : Type 0} (out : Outside T F) where
  unfoldable pub referrer : Session T F → Result Descriptor
  unfolding choose_referrer
  referrer s = choose_referrer (out.target.referrers s.target s.model.man_desc)

  unfoldable pub fetch_lfs : Action (Session T F) Descriptor
  unfolding referrer
  fetch_lfs = do
    found ← attempt (asks referrer)
    edit_model (λ m. record m { lfs_man_desc = descriptor_or_empty found })
    desc ← lift (wrap "resolving LFS manifest: %w" [] found)
    man_raw ←
        wrapping "fetching LFS manifest: %w" [] (asks (λ s. out.target.fetch_all s.target desc))
    wrapping "decoding LFS manifest: %w" [] (
        with_model (
          within (λ m. m.lfs_man) (λ m x. record m { lfs_man = x })
            (out.codec.unmarshal_manifest man_raw)))
    pure desc

  or_default : Result Descriptor → Action (Session T F) Descriptor
  or_default (ok desc) = pure desc
  or_default (err e) =
      if is lfs_manifest_not_found e
      then (do edit_model (λ m. record m { lfs_man = empty_manifest }); pure empty_descriptor)
      else fail (wrapf "fetching remote metadata: %w" [] e)
  or_default (crash k) = lift (crash k)

  unfoldable pub fetch_lfs_or_default : Action (Session T F) Descriptor
  unfolding or_default
  fetch_lfs_or_default = do found ← attempt fetch_lfs; or_default found

  -- The result of Delete, where a manifest that is gone already is no error
  deleted : Result (Unit {0}) → Result (Unit {0})
  deleted (ok u) = ok u
  deleted (err e) =
      if is not_found e then ok tt else err (wrapf "deleting old LFS referrer manifest: %w" [] e)
  deleted (crash k) = crash k

  delete_old : Option (Descriptor → Action T (Unit {0})) → Action (Session T F) (Unit {0})
  unfolding deleted
  delete_old none = pure tt
  delete_old (some delete) = do
    old ← gets (λ s. s.model.lfs_man_desc)
    gone ← attempt (with_target (delete old))
    lift (deleted gone)

  unfoldable pub push_lfs_manifest : Descriptor → Action (Session T F) Descriptor
  unfolding delete_old
  push_lfs_manifest subject = do
    if subject.digest == [] then pure tt else delete_old out.target.delete
    layers ← gets (λ s. s.model.lfs_man.layers)
    wrapping "packing and pushing LFS manifest: %w" [] (
        with_target (
          out.target.pack_manifest artifact_type_lfs_manifest
            (record { subject = some subject; layers = layers; config = none; created = epoch })))

  push_found : Result Descriptor → Descriptor → Action (Session T F) (Unit {0})
  push_found (ok desc) subject = do
    wrapping "pushing LFS manifest: %w" [] (push_lfs_manifest subject)
    pure tt
  push_found (err e) subject = pure tt
  push_found (crash k) subject = lift (crash k)

  -- Every error of FetchLFS is logged only.
  unfoldable pub update_lfs_referrer : Descriptor → Action (Session T F) (Unit {0})
  unfolding push_found
  update_lfs_referrer subject = do found ← attempt fetch_lfs; push_found found subject

  -- The first argument says whether the options ask for progress; a ticker is started then.
  progress_or_default : Bool → Text → Action (Session T F) Text
  progress_or_default true content s = (ok content, record s { tickers = s.tickers + 1 })
  progress_or_default false content s = (ok content, s)

  find_lfs_layer : List Descriptor → Text → Bool → Action (Session T F) Text
  unfolding progress_or_default
  find_lfs_layer [] dgst progress =
      fail (wrapf "%w: %s" (dgst ∷ []) (sentinel layer_not_in_manifest))
  find_lfs_layer (desc ∷ descs) dgst progress =
      let rest = find_lfs_layer descs dgst progress in
      if desc.digest == dgst
      then (do
        content ← wrapping "fetching layer: %w" [] (asks (λ s. out.target.fetch s.target desc))
        progress_or_default progress content)
      else rest

  unfoldable pub fetch_lfs_layer : Text → Bool → Action (Session T F) Text
  unfolding find_lfs_layer
  fetch_lfs_layer dgst progress s = find_lfs_layer (reverse s.model.lfs_man.layers) dgst progress s

  -- The part of PushLFSFile after the search for the digest
  upload_lfs : Descriptor → Bool → Action (Session T F) Descriptor
  unfolding progress_or_default
  upload_lfs desc progress = do
    stored ←
        wrapping "fetching LFS file from temporary filestore: %w" []
          (asks (λ s. out.files.fetch s.files desc))
    rc ← progress_or_default progress stored
    wrapping "pushing LFS file: %w" [] (with_target (out.target.push desc rc))
    edit_model
        (λ m. record m { lfs_man = record m.lfs_man { layers = m.lfs_man.layers ++ (desc ∷ []) } })
    pure desc

  unless_present : List Descriptor → Descriptor → Bool → Action (Session T F) Descriptor
  unfolding upload_lfs size_error
  unless_present [] new progress = upload_lfs new progress
  unless_present (desc ∷ descs) new progress =
      let rest = unless_present descs new progress in
      if out.encoded desc.digest == out.encoded new.digest
      then (if nat_beq desc.size new.size then pure desc else fail (size_error desc new))
      else rest

  unfoldable pub push_lfs_file : Text → Bool → Action (Session T F) Descriptor
  unfolding unless_present
  push_lfs_file path progress = do
    new ←
        wrapping "adding LFS file to intermediate fstore: %w" []
          (with_files (out.files.add (base_name path) media_type_lfs_layer path))
    present ← gets (λ s. s.model.lfs_man.layers)
    unless_present present new progress
