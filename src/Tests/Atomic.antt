-- ===== src/Tests/Atomic.antt =====
-- A push of the modeler to the registry that deletes.
use mathlib.Core.Path.{subst}
use gnoci.Base.{◌≡◌, refl, ap, ◌∙◌, Bool, true, false, [], ◌∷◌, none, text, text_eq, ◌==◌, list_beq}
use gnoci.Outcome.{ok, err, sentinel, not_found, ◌>>=◌}
use gnoci.Model.{new_modeler}
use gnoci.Model.Lfs.{update_lfs_referrer, fetch_lfs, push_lfs_manifest}
use gnoci.Model.Lfs.Updates.{update_lfs_referrer-Keeps}
use gnoci.Model.Session.{Outside, Session, push, push_packs, run_updates}
use gnoci.Model.Session.Atomic.{Ended, push-Ended}
use gnoci.Tests.Store.{man_desc}
use gnoci.Tests.Deleting.{State, removed, resolved, some_is, deleting_of, deleting_store-IsRegistry}
use gnoci.Tests.{small_model, pack}

-- One new packfile, and a registry that has the LFS manifest of an earlier push
abbrev one_new : Session State (Unit {0})
one_new = record {
  model = record small_model { new_packs = pack ∷ [] };
  target = (none, true);
  files = tt;
  tickers = 0;
}

abbrev deleting : Outside State (Unit {0})
deleting = deleting_of small_model.cfg small_model.man.layers

removed-tag : (b : Bool) (t : State) → (removed b t).1.0 ≡ t.0
removed-tag true t = refl
removed-tag false t = refl

push-Ended_example :
    Ended deleting
      (text "reg/repo:tag")
      (err (sentinel not_found))
      (push deleting (update_lfs_referrer deleting ∷ []) one_new)
unfolding new_modeler
push-Ended_example =
    push-Ended deleting (update_lfs_referrer deleting ∷ []) one_new
      (deleting_store-IsRegistry (text "reg/repo:tag"))
      (
        update_lfs_referrer-Keeps deleting _ (record {
          lfs_man_desc = λ s d h. h;
          lfs_man = λ s m h. h;
          packed = λ s media o h. (
            h.0,
            (deleting_store-IsRegistry (text "reg/repo:tag")).pack_manifest_keeps media o s.target
                ∙ h.1,
          );
          deleted = λ delete has s d listed h. (
            h.0,
            subst (λ x. resolved (x d s.target).1.0 ≡ err (sentinel not_found)) (some_is has)
                (ap resolved (removed-tag (d.digest == text "l") s.target) ∙ h.1),
          );
        }),
        tt,
      )

-- The push runs: it deletes the LFS manifest, packs one for the new Git manifest, and sets the tag.
was_pushed :
    push deleting (update_lfs_referrer deleting ∷ []) one_new
    ≡ (ok man_desc, (push deleting (update_lfs_referrer deleting ∷ []) one_new).1)
unfolding push push_packs run_updates ◌>>=◌ update_lfs_referrer fetch_lfs push_lfs_manifest list_beq
was_pushed = refl
