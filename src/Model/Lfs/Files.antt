-- ===== src/Model/Lfs/Files.antt =====
-- PushLFSFile keeps the files of the LFS manifest apart, and pushes no file that is there already.
use gnoci.Base.{
  ◌≡◌, refl, List, [], ◌∷◌, ◌++◌, Bool, true, false, Bool-cases, inl, inr, ◌||◌, Text, text_eq,
  nat_beq, ◌==◌, base_name, arith, if◌then◌else◌,
}
use gnoci.Outcome.{
  Action, Result, ok, err, crash, within, pure, gets, wrapping, fail, modify, continue, ◌>>=◌, ◌>>◌,
}
use gnoci.Outcome.Keeps.{Keeps, Keeps-bind, Keeps-wrapping, Keeps-asks, Keeps-beside}
use gnoci.Oci.{Descriptor, media_type_lfs_layer}
use gnoci.Model.Session.{Outside, Session, edit_model}
use gnoci.Model.Lfs.{push_lfs_file, unless_present, upload_lfs, progress_or_default, size_error}

-- A method that keeps one predicate, before one that leads from it to a weaker one
module _ {S A B : Type 0} (P R : S → Type 0) (weaker : (s : S) → P s → R s) where
  leads-continue :
      (r : Result A) (f : A → Action S B)
      → ((a : A) (s : S) → P s → R (f a s).1)
      → (s : S) → P s
      → R (continue r f s).1
  leads-continue (ok a) f go s h = go a s h
  leads-continue (err e) f go s h = weaker s h
  leads-continue (crash k) f go s h = weaker s h

  leads-bind :
      (m : Action S A) (f : A → Action S B)
      → Keeps P m
      → ((a : A) (s : S) → P s → R (f a s).1)
      → (s : S) → P s
      → R ((m >>= f) s).1
  unfolding ◌>>=◌
  leads-bind m f k go s h = leads-continue (m s).0 f go (m s).1 (k.after s h)

module _ {T F : Type 0} (out : Outside T F) where
  -- Whether a layer has the same encoded digest
  abbrev pub holds : List Descriptor → Descriptor → Bool
  holds [] new = false
  holds (d ∷ ds) new = out.encoded d.digest == out.encoded new.digest || holds ds new

  -- What PushLFSFile does with a file that is there
  abbrev pub kept : List Descriptor → Descriptor → Result Descriptor
  kept [] new = ok new
  kept (d ∷ ds) new =
      if out.encoded d.digest == out.encoded new.digest
      then (if nat_beq d.size new.size then ok d else err (size_error d new))
      else kept ds new

  unless_present-holds :
      (ds : List Descriptor) (new : Descriptor) (progress : Bool) (s : Session T F)
      → holds ds new ≡ true
      → unless_present out ds new progress s ≡ (kept ds new, s)
  unfolding unless_present pure fail
  unless_present-holds [] new progress s h = cc
  unless_present-holds (d ∷ ds) new progress s h =
      elim (Bool-cases (out.encoded d.digest == out.encoded new.digest)) [
        | inl e ↦ elim (Bool-cases (nat_beq d.size new.size)) [
          | inl f ↦ rw (e, f) refl
          | inr f ↦ rw (e, f) refl
        ]
        | inr e ↦ rw e (unless_present-holds ds new progress s (rw e at h))
      ]

  -- A file whose digest the manifest has already is added to the file store, but it is not pushed,
  -- and no ticker is started: PushLFSFile returns the layer that is there, or, where its size is
  -- another, an error.
  pub push_lfs_file-present :
      (path : Text) (progress : Bool) (new : Descriptor) (files : F) (s : Session T F)
      → out.files.add (base_name path) media_type_lfs_layer path s.files ≡ (ok new, files)
      → holds s.model.lfs_man.layers new ≡ true
      → push_lfs_file out path progress s
        ≡ (kept s.model.lfs_man.layers new, record s { files = files })
  unfolding push_lfs_file wrapping within gets ◌>>=◌
  push_lfs_file-present path progress new files s added h =
      rw
        (
          added,
          unless_present-holds s.model.lfs_man.layers new progress (record s { files = files }) h,
        )
        refl

  -- The encoded digests of the layers differ from each other.
  abbrev pub Apart : List Descriptor → Type 0
  Apart [] = Unit
  Apart (d ∷ ds) = (holds ds d ≡ false) × Apart ds

  abbrev pub FilesApart : Session T F → Type 0
  FilesApart s = Apart s.model.lfs_man.layers

  holds-append :
      (ds : List Descriptor) (new x : Descriptor)
      → holds (ds ++ (new ∷ [])) x ≡ (holds ds x || out.encoded new.digest == out.encoded x.digest)
  holds-append [] new x = ground arith
  holds-append (d ∷ ds) new x = ground (arith, holds-append ds new x)

  Apart-append :
      (ds : List Descriptor) (new : Descriptor)
      → Apart ds
      → holds ds new ≡ false
      → Apart (ds ++ (new ∷ []))
  Apart-append [] new a h = (refl, tt)
  Apart-append (d ∷ ds) new (first, rest) h = (
    ground (
      arith,
      h,
      first,
      holds-append ds new d,
      text_eq.beq_iff (out.encoded d.digest) (out.encoded new.digest),
      text_eq.beq_iff (out.encoded new.digest) (out.encoded d.digest),
    ),
    Apart-append ds new rest (ground (arith, h)),
  )

  -- The manifest is as it should be, and the new file is not in it.
  abbrev Absent : Descriptor → Session T F → Type 0
  Absent new s = FilesApart s × (holds s.model.lfs_man.layers new ≡ false)

  progress_or_default-Absent :
      (new : Descriptor) (progress : Bool) (content : Text)
      → Keeps (Absent new) (progress_or_default out progress content)
  unfolding progress_or_default
  progress_or_default-Absent new true content = record { after = λ s h. h }
  progress_or_default-Absent new false content = record { after = λ s h. h }

  abbrev record_file : Descriptor → Action (Session T F) Descriptor
  record_file new = do
    edit_model
        (λ m. record m { lfs_man = record m.lfs_man { layers = m.lfs_man.layers ++ (new ∷ []) } })
    pure new

  recorded : (new : Descriptor) (s : Session T F) → Absent new s → FilesApart (record_file new s).1
  unfolding modify pure ◌>>=◌
  recorded new s (apart, absent) = Apart-append s.model.lfs_man.layers new apart absent

  upload_lfs-Apart :
      (new : Descriptor) (progress : Bool) (s : Session T F)
      → Absent new s
      → FilesApart (upload_lfs out new progress s).1
  unfolding upload_lfs
  upload_lfs-Apart new progress =
      leads-bind (Absent new) FilesApart (λ s h. h.0) _ _ (Keeps-wrapping _ _ _ (Keeps-asks _))
        λ stored.
          leads-bind (Absent new) FilesApart (λ s h. h.0) _ _
            (progress_or_default-Absent new progress stored)
            λ rc.
              leads-bind (Absent new) FilesApart (λ s h. h.0) _ _
                (Keeps-wrapping _ _ _ (Keeps-beside _ _ (Absent new) _ (λ s t h. h)))
                (λ u. recorded new)

  unless_present-Apart :
      (ds : List Descriptor) (new : Descriptor) (progress : Bool) (s : Session T F)
      → FilesApart s
      → (holds ds new ≡ false → holds s.model.lfs_man.layers new ≡ false)
      → FilesApart (unless_present out ds new progress s).1
  unfolding unless_present pure fail
  unless_present-Apart [] new progress s apart absent =
      upload_lfs-Apart new progress s (apart, absent refl)
  unless_present-Apart (d ∷ ds) new progress s apart absent =
      elim (Bool-cases (out.encoded d.digest == out.encoded new.digest)) [
        | inl e ↦ elim (Bool-cases (nat_beq d.size new.size)) [
          | inl f ↦ rw (e, f) apart
          | inr f ↦ rw (e, f) apart
        ]
        | inr e ↦ rw e (unless_present-Apart ds new progress s apart (rw e at absent))
      ]

  search-Apart :
      (new : Descriptor) (progress : Bool)
      → Keeps FilesApart
          (do present ← gets (λ s. s.model.lfs_man.layers); unless_present out present new progress)
  unfolding gets ◌>>=◌
  search-Apart new progress = record {
    after = λ s apart. unless_present-Apart s.model.lfs_man.layers new progress s apart (λ h. h);
  }

  -- PushLFSFile keeps the encoded digests of the layers of the LFS manifest different from each other,
  -- however it ends.
  pub push_lfs_file-Apart :
      (path : Text) (progress : Bool) → Keeps FilesApart (push_lfs_file out path progress)
  unfolding push_lfs_file
  push_lfs_file-Apart path progress =
      Keeps-bind _ _ (Keeps-wrapping _ _ _ (Keeps-beside _ _ FilesApart _ (λ s f h. h)))
        λ new. search-Apart new progress
