-- ===== src/Refcomp/Cache.antt =====
-- The cache of the comparer, which is keyed by the remote name.
use gnoci.Base.{◌≡◌, refl, Bool, false, ◌==◌, Text, Option, none, some, text_eq, arith}
use gnoci.Base.Dict.{lookup, lookup-insert}
use gnoci.Outcome.{Result, ok, err, crash}
use gnoci.Plumbing.{GoGit, Repository}
use gnoci.Refcomp.{Comparer, RefPair, compare_names, compare_cached, cached, remember}

module _ (git : GoGit) (repo : Repository) where
  remember-remote :
      (name : Text) (r : Result RefPair) (c : Comparer)
      → (remember git repo name r c).1.remote ≡ c.remote
  unfolding remember
  remember-remote name (ok rp) c = refl
  remember-remote name (err e) c = refl
  remember-remote name (crash k) c = refl

  cached-remote :
      (hit : Option RefPair) (force : Bool) (local remote : Text) (c : Comparer)
      → (cached git repo hit force local remote c).1.remote ≡ c.remote
  unfolding cached
  cached-remote (some rp) force local remote c = refl
  cached-remote none force local remote c = remember-remote remote _ c

  pub compare_cached-remote :
      (force : Bool) (local remote : Text) (c : Comparer)
      → (compare_cached git repo force local remote c).1.remote ≡ c.remote
  unfolding compare_cached
  compare_cached-remote force local remote c =
      cached-remote (lookup remote c.refs) force local remote c

  remember-result :
      (name : Text) (r : Result RefPair) (c : Comparer) → (remember git repo name r c).0 ≡ r
  unfolding remember
  remember-result name (ok rp) c = refl
  remember-result name (err e) c = refl
  remember-result name (crash k) c = refl

  pub compare_cached-miss :
      (force : Bool) (local remote : Text) (c : Comparer)
      → lookup remote c.refs ≡ none
      → (compare_cached git repo force local remote c).0
        ≡ compare_names git repo force local remote c.remote
  unfolding compare_cached cached
  compare_cached-miss force local remote c h = rw h (remember-result remote _ c)

  remember-others :
      (name other : Text) (r : Result RefPair) (c : Comparer)
      → (name == other) ≡ false
      → lookup other (remember git repo name r c).1.refs ≡ lookup other c.refs
  unfolding remember
  remember-others name other (ok rp) c h = rw (lookup-insert name other rp c.refs, h)
  remember-others name other (err e) c h = refl
  remember-others name other (crash k) c h = refl

  cached-others :
      (hit : Option RefPair) (force : Bool) (local remote other : Text) (c : Comparer)
      → (remote == other) ≡ false
      → lookup other (cached git repo hit force local remote c).1.refs ≡ lookup other c.refs
  unfolding cached
  cached-others (some rp) force local remote other c h = refl
  cached-others none force local remote other c h = remember-others remote other _ c h

  pub compare_cached-others :
      (force : Bool) (local remote other : Text) (c : Comparer)
      → (remote == other) ≡ false
      → lookup other (compare_cached git repo force local remote c).1.refs ≡ lookup other c.refs
  unfolding compare_cached
  compare_cached-others force local remote other c h =
      cached-others (lookup remote c.refs) force local remote other c h

  -- Between two updates of the remote a pair is compared once: when Compare has returned a pair for
  -- a remote name, the next Compare with this remote name returns the same pair and leaves the
  -- comparer as it is, whatever the flag and the local name of the second call.
  pub compare_cached-again :
      (force again : Bool) (local other remote : Text) (rp : RefPair) (c : Comparer)
      → (compare_cached git repo force local remote c).0 ≡ ok rp
      → compare_cached git repo again other remote (compare_cached git repo force local remote c).1
        ≡ (ok rp, (compare_cached git repo force local remote c).1)
  unfolding compare_cached cached remember
  compare_cached-again force again local other remote rp c h =
      ground (arith, lookup-insert remote remote rp c.refs, text_eq.beq_iff remote remote)
