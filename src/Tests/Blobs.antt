-- ===== src/Tests/Blobs.antt =====
-- A registry of blobs under their digests, which takes each digest once, deletes them, and names one
-- LFS manifest as the referrer of every manifest.
use mathlib.Core.Path.{subst}
use gnoci.Model.Lfs.Updates.{Unreferring}
use gnoci.Base.{
  ◌≢◌, map, true, false, ◌≡◌, refl, sym, ap, ◌∙◌, Option, none, some, [], ◌∷◌, In, inl, inr,
  Bool-cases, Text, text, text_eq, ◌==◌, list_beq,
}
use gnoci.Base.Dict.{Dict, lookup, insert, erase, lookup-insert, lookup-erase}
use gnoci.Outcome.{Result, ok, err, sentinel, not_found, ◌>>=◌, errorf}
use gnoci.Oci.{Descriptor, Target}
use gnoci.Model.Session.{Outside, Session, push, push_packs, run_updates}
use gnoci.Model.Session.Stored.{IsBlobStore, push-Stored}
use gnoci.Model.Lfs.{update_lfs_referrer, fetch_lfs, push_lfs_manifest}
use gnoci.Tests.{small_outside, small_session, pack}

abbrev pub found : Option Text → Result Text
found none = err (sentinel not_found)
found (some raw) = ok raw

-- A second push of a digest is refused.
abbrev taken : Descriptor → Text → Dict Text → Option Text → Result (Unit {0}) × Dict Text
taken d raw t none = (ok tt, insert d.digest raw t)
taken d raw t (some old) = (err (errorf "already exists" []), t)

-- The LFS manifest of an earlier push
abbrev pub old_lfs : Descriptor
old_lfs = record { media_type = []; digest = text "l"; size = 1 }

abbrev blob_store : Target (Dict Text)
blob_store = record {
  resolve = λ t ref. err (sentinel not_found);
  fetch_all = λ t d. found (lookup d.digest t);
  fetch = λ t d. found (lookup d.digest t);
  push = λ d raw t. taken d raw t (lookup d.digest t);
  tag = λ d ref t. (ok tt, t);
  push_bytes = λ media raw t. (ok pack, t);
  pack_manifest = λ media o t. (ok pack, t);
  referrers = λ t d. (old_lfs ∷ [], none);
  delete = some (λ d t. (ok tt, erase d.digest t));
}

abbrev pub new_pack : Descriptor
new_pack = record { media_type = []; digest = text "n"; size = 1 }

abbrev pub blobs : Outside (Dict Text) (Unit {0})
blobs = record {
  git = small_outside.git;
  target = blob_store;
  files = record { add = λ name media path f. (ok new_pack, f); fetch = λ f d. ok (text "PACK") };
  codec = small_outside.codec;
  encoded = λ d. d;
  now = [];
  manifest_media_type = [];
}

taken-there :
    (d : Descriptor) (raw : Text) (t u : Dict Text) (o : Option Text)
    → taken d raw t o ≡ (ok tt, u)
    → found (lookup d.digest u) ≡ ok raw
taken-there d raw t u none h =
    let same = (text_eq.beq_iff d.digest d.digest).1 refl in
    sym (ap (λ x. found (lookup d.digest x.1)) h)
    ∙ (ap found (lookup-insert d.digest d.digest raw t) ∙ rw same refl)
taken-there d raw t u (some old) h = cc

taken-keeps :
    (e : Descriptor) (content : Text) (d : Descriptor) (raw : Text) (t : Dict Text)
    (o : Option Text)
    → lookup e.digest t ≡ o
    → found (lookup d.digest t) ≡ ok raw
    → found (lookup d.digest (taken e content t o).1) ≡ ok raw
taken-keeps e content d raw t none at h = elim (Bool-cases (e.digest == d.digest)) [
  | inl k ↦
      let same = (text_eq.beq_iff e.digest d.digest).0 k in
      absurd (empty (sym (ap found at) ∙ (ap (λ x. found (lookup x t)) same ∙ h)))
  | inr k ↦ ap found (lookup-insert e.digest d.digest content t) ∙ rw k h
]
  where
    empty : ¬ (err (sentinel not_found) ≡ ok raw)
    empty h = cc
taken-keeps e content d raw t (some old) at h = h

erase-keeps :
    (e d : Descriptor) (raw : Text) (t : Dict Text)
    → e.digest ≢ d.digest
    → found (lookup d.digest t) ≡ ok raw
    → found (lookup d.digest (erase e.digest t)) ≡ ok raw
erase-keeps e d raw t apart h = elim (Bool-cases (e.digest == d.digest)) [
  | inl k ↦ absurd (apart ((text_eq.beq_iff e.digest d.digest).0 k))
  | inr k ↦ ap found (lookup-erase e.digest d.digest t) ∙ rw k h
]

some_is : {A : Type 0} {a b : A} → some a ≡ some b → a ≡ b
some_is h = cc

true-false : ¬ (true ≡ false)
true-false h = cc

-- Only the LFS manifest is named as a referrer.
pub blobs-Unreferring : (d : Descriptor) → (text "l" == d.digest) ≡ false → Unreferring blobs d
blobs-Unreferring d apart e (t, subject, inl is) same =
    true-false
      (sym ((text_eq.beq_iff (text "l") d.digest).1 (sym (ap (λ x. x.digest) is) ∙ same)) ∙ apart)
blobs-Unreferring d apart e (t, subject, inr none_left) same = elim none_left [ ]

pub blobs-IsBlobStore : IsBlobStore blobs
blobs-IsBlobStore = record {
  pushed_there = λ d raw t u h. taken-there d raw t u (lookup d.digest t) h;
  push_keeps = λ e content d raw t h. taken-keeps e content d raw t (lookup e.digest t) refl h;
  bytes_keep = λ media content d raw t h. h;
  pack_keeps = λ media o d raw t h. h;
  tag_keeps = λ e ref d raw t h. h;
  delete_keeps = λ delete has e d raw t apart h.
      subst (λ x. found (lookup d.digest (x e t).1) ≡ ok raw) (some_is has)
        (erase-keeps e d raw t apart h);
}

-- One new packfile, and a registry that has an older one and the LFS manifest
abbrev one_new : Session (Dict Text) (Unit {0})
one_new = record {
  model = small_session.model;
  target = (text "l", text "LFS") ∷ (text "old", text "OLD") ∷ [];
  files = tt;
  tickers = 0;
}

abbrev all_pushed : Result Descriptor × Session (Dict Text) (Unit {0})
all_pushed = push blobs (update_lfs_referrer blobs ∷ []) one_new

one_pushed : all_pushed ≡ (ok pack, all_pushed.1)
unfolding push push_packs run_updates ◌>>=◌ update_lfs_referrer fetch_lfs push_lfs_manifest list_beq
    lookup insert erase
one_pushed = refl

-- The update has deleted the old LFS manifest, and nothing else.
old_deleted : map (λ x. x.0) all_pushed.1.target ≡ text "old" ∷ text "d" ∷ []
unfolding push push_packs run_updates ◌>>=◌ update_lfs_referrer fetch_lfs push_lfs_manifest list_beq
    lookup insert erase
old_deleted = refl

push-Stored_example :
    ((d : Descriptor)
      → In d (pack ∷ [])
      → Unreferring blobs d
      → (raw : Text) × (ok (text "PACK") ≡ ok raw)
        × (blob_store.fetch all_pushed.1.target d ≡ ok raw))
    × ((d : Descriptor) (raw : Text)
        → Unreferring blobs d
        → blob_store.fetch one_new.target d ≡ ok raw
        → blob_store.fetch all_pushed.1.target d ≡ ok raw)
push-Stored_example = push-Stored blobs blobs-IsBlobStore one_new all_pushed.1 pack one_pushed
