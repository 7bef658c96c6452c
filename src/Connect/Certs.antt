-- ===== src/Connect/Certs.antt =====
-- Which directory of certificates is used.
use gnoci.Base.{◌≡◌, refl, ◌⊎◌, inl, inr, List, [], ◌∷◌, Text, true, Bool-cases}
use gnoci.Outcome.{Result, ok, err, crash, Error, is, not_exist}
use gnoci.Connect.{Platform, stat_or_later, resolve_tls_cert_location}

module _ {C P K N T F : Type 0} (sys : Platform C P K N T F) where
  -- os.Stat says that nothing is there.
  pub data Missing (path : Text) : Type 0 where
    missing : {e : Error} → sys.stat path ≡ err e → is not_exist e ≡ true → Missing path

  pub data AllMissing : List Text → Type 0 where
    none_left : AllMissing []
    one_more :
        {path : Text} {paths : List Text}
        → Missing path
        → AllMissing paths
        → AllMissing (path ∷ paths)

  -- The path exists, and nothing is at those that stand before it.
  pub data First (path : Text) : List Text → Type 0 where
    here : {paths : List Text} → sys.stat path ≡ ok tt → First path (path ∷ paths)
    later :
        {other : Text} {paths : List Text}
        → Missing other
        → First path paths
        → First path (other ∷ paths)

  ok-err : {A : Type 0} {a : A} {e : Error} → ¬ (err e ≡ ok a)
  ok-err h = cc

  stat_or_later-First :
      (path : Text) (paths : List Text) (found : Text) (r : Result (Unit {0}))
      → sys.stat path ≡ r
      → (resolve_tls_cert_location sys paths ≡ ok found
          → First found paths ⊎ ((found ≡ []) × AllMissing paths))
      → stat_or_later sys path r (resolve_tls_cert_location sys paths) ≡ ok found
      → First found (path ∷ paths) ⊎ ((found ≡ []) × AllMissing (path ∷ paths))
  unfolding stat_or_later
  stat_or_later-First path paths found (ok u) e more h =
      let same : found ≡ path = cc in rw same (inl (here e))
  stat_or_later-First path paths found (err x) e more h = elim (Bool-cases (is not_exist x)) [
    | inl gone ↦ elim (more (rw gone at h)) [
      | inl f ↦ inl (later (missing e gone) f)
      | inr (empty, all) ↦ inr (empty, one_more (missing e gone) all)
    ]
    | inr other ↦ absurd (ok-err (rw other at h))
  ]
  stat_or_later-First path paths found (crash c) e more h = cc

  -- When the search for certificates succeeds, its result is the first of the paths that exists, or it
  -- is empty and nothing is at any of the paths.
  pub resolve_tls_cert_location-First :
      (paths : List Text) (found : Text)
      → resolve_tls_cert_location sys paths ≡ ok found
      → First found paths ⊎ ((found ≡ []) × AllMissing paths)
  unfolding resolve_tls_cert_location
  resolve_tls_cert_location-First [] found h = inr (cc, none_left)
  resolve_tls_cert_location-First (path ∷ paths) found h =
      stat_or_later-First path paths found (sys.stat path) refl
        (resolve_tls_cert_location-First paths found) h
