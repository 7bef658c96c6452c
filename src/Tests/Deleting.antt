-- ===== src/Tests/Deleting.antt =====
-- A registry that deletes: it names an LFS manifest as the referrer of each manifest while it has it.
use gnoci.Base.{
  ◌≡◌, ◌≢◌, refl, sym, ap, ◌∙◌, In, inl, inr, Bool, Bool-cases, true, false, List, [], ◌∷◌, Option,
  none, some, Text, text, text_eq, ◌==◌, list_beq, if◌then◌else◌,
}
use gnoci.Outcome.{Result, ok, err, crash, sentinel, not_found, errorf}
use gnoci.Outcome.Succeeds.{ok-injective}
use gnoci.Oci.{ConfigGit, Descriptor, Manifest, Target, empty_manifest}
use gnoci.Model.Lfs.Updates.{Unreferring}
use gnoci.Model.Session.{Outside}
use gnoci.Model.Session.Published.{IsStore}
use gnoci.Model.Session.Atomic.{IsRegistry}
use mathlib.Core.Path.{subst}
use gnoci.Cmd.Push.Fetched.{DeletesReferrers}
use gnoci.Tests.Store.{config_desc, man_desc, is_config, chosen, packed-config}
use gnoci.Tests.{small_outside}

-- The tag, and whether the LFS manifest is there
abbrev pub State : Type 0
State = Option Descriptor × Bool

abbrev pub lfs_desc : Descriptor
lfs_desc = record { media_type = []; digest = text "l"; size = 0 }

abbrev pub content : Bool → Text → Result Text
content true raw = ok raw
content false raw = if raw == text "l" then err (sentinel not_found) else ok raw

abbrev listed : Bool → List Descriptor
listed true = lfs_desc ∷ []
listed false = []

abbrev pub packed : Option Descriptor → State → Result Descriptor × State
packed none t = (ok lfs_desc, (t.0, true))
packed (some c) t = (if is_config (some c) then ok man_desc else err (errorf "no config" []), t)

abbrev pub removed : Bool → State → Result (Unit {0}) × State
removed true t = (ok tt, (t.0, false))
removed false t = (err (sentinel not_found), t)

abbrev pub deleting_store : Target State
deleting_store = record {
  resolve = λ t ref. elim t.0 [ none ↦ err (sentinel not_found) | some d ↦ ok d ];
  fetch_all = λ t d. content t.1 d.digest;
  fetch = λ t d. content t.1 d.digest;
  push = λ d raw t. (ok tt, t);
  tag = λ d ref t. (ok tt, (some d, t.1));
  push_bytes = λ media raw t. (
    ok (record { media_type = media; digest = raw; size = 0 }),
    (t.0, if raw == text "l" then true else t.1),
  );
  pack_manifest = λ media o t. packed o.config t;
  referrers = λ t d. (listed t.1, none);
  delete = some (λ d t. removed (d.digest == text "l") t);
}

-- What the JSON of a manifest reads as: the Git manifest, or an LFS manifest without files
abbrev decoded : List Descriptor → Bool → Manifest
decoded layers true = record empty_manifest { config = config_desc; layers = layers }
decoded layers false = empty_manifest

abbrev pub deleting_of : ConfigGit → List Descriptor → Outside State (Unit {0})
deleting_of cfg layers = record {
  git = small_outside.git;
  target = deleting_store;
  files = small_outside.files;
  codec = record {
    marshal_config = λ c. ok (text "c");
    unmarshal_config = λ raw c. (ok tt, cfg);
    unmarshal_manifest = λ raw m. (ok tt, decoded layers (raw == text "m"));
  };
  encoded = λ d. d;
  now = [];
  manifest_media_type = [];
}

content-other : (p : Bool) (raw : Text) → (raw == text "l") ≡ false → content p raw ≡ ok raw
content-other true raw h = refl
content-other false raw h = rw h refl

content-is : (p : Bool) (x raw : Text) → content p x ≡ ok raw → x ≡ raw
content-is true x raw h = ok-injective h
content-is false x raw h = elim (Bool-cases (x == text "l")) [
  | inl k ↦ absurd (missing (rw k at h))
  | inr k ↦ ok-injective (sym (content-other false x k) ∙ h)
]
  where
    missing : ¬ (err (sentinel not_found) ≡ ok raw)
    missing h = cc

content-true : (p : Bool) (x raw : Text) → content p x ≡ ok raw → content true x ≡ ok raw
content-true p x raw h = ap ok (content-is p x raw h)

restored :
    (p : Bool) (pushed x raw : Text)
    → content p x ≡ ok raw
    → content (if pushed == text "l" then true else p) x ≡ ok raw
restored p pushed x raw h = elim (Bool-cases (pushed == text "l")) [
  | inl k ↦ rw k (content-true p x raw h)
  | inr k ↦ rw k h
]

pushed_there : (p : Bool) (raw : Text) → content (if raw == text "l" then true else p) raw ≡ ok raw
pushed_there p raw = elim (Bool-cases (raw == text "l")) [
  | inl k ↦ rw k refl
  | inr k ↦ rw k (content-other p raw k)
]

packed-keeps :
    (o : Option Descriptor) (t : State) (x raw : Text)
    → content t.1 x ≡ ok raw
    → content (packed o t).1.1 x ≡ ok raw
packed-keeps none t x raw h = content-true t.1 x raw h
packed-keeps (some c) t x raw h = h

packed-is :
    (o : Option Descriptor) (c d : Descriptor) (t u : State)
    → o ≡ some c
    → packed o t ≡ (ok d, u)
    → (man_desc ≡ d) × (config_desc ≡ c)
packed-is none c d t u is_some h = cc
packed-is (some x) c d t u is_some h =
    let done = ap (λ r. r.0) h in
    let fits = chosen (is_config (some x)) d _ done in
    (ok-injective (rw fits at done), packed-config c d _ (some x) is_some done)

pub deleting_of-IsStore :
    (cfg : ConfigGit) (layers : List Descriptor) → IsStore (deleting_of cfg layers) cfg layers
unfolding list_beq
deleting_of-IsStore cfg layers = record {
  bytes_stored = λ media raw t u d h.
      ap (λ x. content x.1.1 (elim x.0 [ ok e ↦ e.digest | err e ↦ raw | crash k ↦ raw ])) (sym h)
      ∙ pushed_there t.1 raw;
  manifest_stored = λ media o t u c d same some_c h.
      let (d_is, c_is) = packed-is o.config c d t u some_c h in
      (
        text "m",
        (
          decoded layers true,
          (
            ap (λ e. content u.1 e.digest) (sym d_is) ∙ content-other u.1 (text "m") refl,
            (refl, (refl, c_is)),
          ),
        ),
      );
  push_keeps = λ e content d raw t h. h;
  bytes_keep = λ media pushed d raw t h. restored t.1 pushed d.digest raw h;
  pack_keeps = λ media o d raw t h. packed-keeps o.config t d.digest raw h;
  tag_keeps = λ e ref d raw t h. h;
  tag_resolves = λ d ref t u h.
      ap (λ x. elim x.1.0 [ none ↦ err (sentinel not_found) | some e ↦ ok e ]) (sym h);
  config_back = λ raw h. refl;
}

pub some_is : {A : Type 0} {a b : A} → some a ≡ some b → a ≡ b
some_is h = cc

removed-keeps :
    (e d : Text) (raw : Text) (t : State)
    → e ≢ d
    → content t.1 d ≡ ok raw
    → content (removed (e == text "l") t).1.1 d ≡ ok raw
removed-keeps e d raw t apart h = elim (Bool-cases (e == text "l")) [
  | inr k ↦ rw k h
  | inl k ↦ rw k (elim (Bool-cases (d == text "l")) [
    | inl other ↦
        absurd (
          apart ((text_eq.beq_iff e (text "l")).0 k ∙ sym ((text_eq.beq_iff d (text "l")).0 other)))
    | inr other ↦ content-other false d other ∙ ap ok (content-is t.1 d raw h)
  ])
]

listed-is : (p : Bool) (e : Descriptor) → In e (listed p) → e.digest ≡ text "l"
listed-is true e (inl is) = ap (λ x. x.digest) is
listed-is true e (inr none_left) = elim none_left [ ]
listed-is false e i = elim i [ ]

true-false : ¬ (true ≡ false)
true-false h = cc

other-Unreferring :
    (cfg : ConfigGit) (layers : List Descriptor) (d : Descriptor)
    → (text "l" == d.digest) ≡ false
    → Unreferring (deleting_of cfg layers) d
other-Unreferring cfg layers d apart e (t, subject, named) same =
    true-false
      (sym ((text_eq.beq_iff (text "l") d.digest).1 (sym (listed-is t.1 e named) ∙ same)) ∙ apart)

decoded-config :
    (layers : List Descriptor) (b : Bool) (man : Manifest)
    → ¬ ([] ≡ layers)
    → decoded layers b ≡ man
    → man.layers ≡ layers
    → (b ≡ true) × (man.config ≡ config_desc)
decoded-config layers true man some_layers is same = (refl, sym (ap (λ m. m.config) is))
decoded-config layers false man some_layers is same =
    absurd (some_layers (ap (λ m. m.layers) is ∙ same))

-- Where the Git manifest has layers, it is not the LFS manifest.
pub deleting_of-DeletesReferrers :
    (cfg : ConfigGit) (layers : List Descriptor)
    → ¬ ([] ≡ layers)
    → DeletesReferrers (deleting_of cfg layers) cfg layers
unfolding list_beq
deleting_of-DeletesReferrers cfg layers some_layers = record {
  delete_keeps = λ delete has e d raw t apart h.
      subst (λ x. content (x e t).1.1 d.digest ≡ ok raw) (some_is has)
        (removed-keeps e.digest d.digest raw t apart h);
  apart = λ ref d s h.
      let (is_git, config_is) =
        decoded-config layers (h.man_raw == text "m") h.man some_layers
          (ap (λ x. x.1) h.manifest_back) h.layers_are in
      let digest_is : text "m" ≡ d.digest = sym (
        content-is s.target.1 d.digest h.man_raw h.manifest_there
        ∙ (text_eq.beq_iff h.man_raw (text "m")).0 is_git) in
      (
        other-Unreferring cfg layers d (ap (λ x. text "l" == x) (sym digest_is)),
        other-Unreferring cfg layers h.man.config (ap (λ c. text "l" == c.digest) config_is),
      );
}

abbrev pub resolved : Option Descriptor → Result Descriptor
resolved o = elim o [ none ↦ err (sentinel not_found) | some d ↦ ok d ]

pub deleting_store-IsRegistry : (ref : Text) → IsRegistry deleting_store ref
deleting_store-IsRegistry ref = record {
  push_keeps = λ d raw t. refl;
  push_bytes_keeps = λ media raw t. refl;
  pack_manifest_keeps = λ media o t. ap resolved (packed-tag o.config t);
  tag_sets = λ d t h. refl;
}
  where
    packed-tag : (o : Option Descriptor) (t : State) → (packed o t).1.0 ≡ t.0
    packed-tag none t = refl
    packed-tag (some c) t = refl
