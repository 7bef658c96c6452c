-- ===== src/Model/Session/Republished.antt =====
-- Push, step by step, up to what the registry holds of it, and Fetch behind it.
use mathlib.Core.Path.{subst}
use gnoci.Base.{◌≡◌, refl, sym, ap, ◌∙◌, List, Text}
use gnoci.Outcome.{Action, Result, ok, err, crash, pure}
use gnoci.Outcome.Keeps.{Keeps}
use gnoci.Outcome.Succeeds.{
  bind-succeeds, ok-injective, wrapping-succeeds, lift-succeeds, gets-succeeds, within-succeeds,
}
use gnoci.Oci.{Descriptor, ConfigGit, media_type_git_config}
use gnoci.Model.{Modeler}
use gnoci.Model.Session.{
  Outside, Session, push, push_packs, push_metadata, tag_manifest, marshalled, fetch,
}
use gnoci.Model.Session.Pushed.{Unmoved, push_packs-Keeps, run_updates-Keeps}
use gnoci.Model.Session.Published.{IsStore, Holds, fresh, fetch-Holds, Holds-moved, Preserving}

module _ {T F : Type 0} (out : Outside T F) (cfg : ConfigGit) (layers : List Descriptor)
    (store : IsStore out cfg layers) where
  Holds-Unmoved : (ref : Text) (d : Descriptor) → Unmoved out (Holds out ref cfg layers d)
  Holds-Unmoved ref d = record {
    pushed = λ s e content h.
        Holds-moved out ref cfg layers d s _ (λ x raw. store.push_keeps e content x raw s.target) h;
    bytes_pushed = λ s media content h.
        Holds-moved out ref cfg layers d s _
          (λ x raw. store.bytes_keep media content x raw s.target) h;
    packed = λ s media o h.
        Holds-moved out ref cfg layers d s _ (λ x raw. store.pack_keeps media o x raw s.target) h;
  }

  marshalled-ok : (r : Result Text) (raw : Text) → marshalled out r ≡ ok raw → r ≡ ok raw
  unfolding marshalled
  marshalled-ok (ok t) raw h = h
  marshalled-ok (err e) raw h = cc
  marshalled-ok (crash c) raw h = cc

  push_metadata-Holds :
      (s u : Session T F) (d : Descriptor)
      → s.model.cfg ≡ cfg
      → s.model.man.layers ≡ layers
      → push_metadata out s ≡ (ok d, u)
      → Holds out s.model.ref cfg layers d u
  unfolding push_metadata
  push_metadata-Holds s u d same_cfg same_layers h =
      let (c0, (s0, (got, h0))) = bind-succeeds _ _ s u d h in
      let (raw, (s1, (printed, h1))) = bind-succeeds _ _ s0 u d h0 in
      let (c, (s2, (pushed, h2))) = bind-succeeds _ _ s1 u d h1 in
      let (ls, (s3, (listed, packed))) = bind-succeeds _ _ s2 u d h2 in
      let (cfg_is, at0) = gets-succeeds _ s s0 c0 got in
      let (printed_ok, at1) = lift-succeeds _ s0 s1 raw printed in
      let (bytes, at2) = within-succeeds _ _ _ s1 s2 c (wrapping-succeeds _ _ _ s1 s2 c pushed) in
      let (layers_is, at3) = gets-succeeds _ s2 s3 ls listed in
      let (manifest, at4) = within-succeeds _ _ _ s3 u d (wrapping-succeeds _ _ _ s3 u d packed) in
      let model2 : s2.model ≡ s.model =
        ap (λ q. q.model) at2 ∙ (ap (λ q. q.model) at1 ∙ ap (λ q. q.model) at0) in
      let model4 : u.model ≡ s.model = ap (λ q. q.model) at4 ∙ (ap (λ q. q.model) at3 ∙ model2) in
      let (man_raw, (man, (there, (back, (man_layers, man_config))))) =
        store.manifest_stored _ _ s3.target _ c d
          (layers_is ∙ (ap (λ m. m.man.layers) model2 ∙ same_layers)) refl manifest in
      record {
        man_raw = man_raw;
        man = man;
        cfg_raw = raw;
        ref_is = ap (λ m. m.ref) model4;
        manifest_there = ap (λ q. out.target.fetch_all q.target d) at4 ∙ there;
        manifest_back = back;
        layers_are = man_layers;
        config_there =
            ap (λ e. out.target.fetch_all u.target e) man_config
            ∙ (ap (λ q. out.target.fetch_all q.target c) at4
                ∙ store.pack_keeps _ _ c raw s3.target (
                    ap (λ q. out.target.fetch_all q.target c) (at3 ∙ at2)
                    ∙ store.bytes_stored media_type_git_config raw s1.target _ c bytes));
        config_back = store.config_back raw (
            ap out.codec.marshal_config (sym (cfg_is ∙ same_cfg)) ∙ marshalled-ok _ raw printed_ok);
      }

  packs-model :
      (model : Modeler) (packs : List Descriptor)
      → Keeps (λ q. q.model ≡ model) (push_packs out packs)
  packs-model model packs =
      push_packs-Keeps out _
        (record {
          pushed = λ q d raw h. h;
          bytes_pushed = λ q media raw h. h;
          packed = λ q media o h. h;
        })
        packs

  tag_manifest-Holds :
      (ref : Text) (d : Descriptor) (s u : Session T F) (x : Unit {0})
      → Holds out ref cfg layers d s
      → tag_manifest out d s ≡ (ok x, u)
      → Holds out ref cfg layers d u × (out.target.resolve u.target ref ≡ ok d)
  unfolding tag_manifest
  tag_manifest-Holds ref d s u x held h =
      let (name, (s0, (got, tagged))) = bind-succeeds _ _ s u x h in
      let (name_is, at0) = gets-succeeds _ s s0 name got in
      let (done, at1) = within-succeeds _ _ _ s0 u x (wrapping-succeeds _ _ _ s0 u x tagged) in
      let before = subst (Holds out ref cfg layers d) (sym at0) held in
      let name_ref : name ≡ ref = name_is ∙ held.ref_is in
      (
        subst (Holds out ref cfg layers d) (sym at1) (
            Holds-moved out ref cfg layers d s0 _ (λ e raw. store.tag_keeps d name e raw s0.target)
              before),
        ap (λ q. out.target.resolve q.target ref) at1
            ∙ (ap (λ n. out.target.resolve (out.target.tag d name s0.target).1 n) (sym name_ref)
                ∙ store.tag_resolves d name s0.target (out.target.tag d name s0.target).1 done),
      )

  steps :
      (updates : List (Descriptor → Action (Session T F) (Unit {0}))) (s u : Session T F)
      (d : Descriptor)
      → Preserving out cfg layers updates
      → s.model.cfg ≡ cfg
      → s.model.man.layers ≡ layers
      → push out updates s ≡ (ok d, u)
      → Holds out s.model.ref cfg layers d u × (out.target.resolve u.target s.model.ref ≡ ok d)
  unfolding push pure
  steps updates s u d preserving same_cfg same_layers h =
      let (packs, (s0, (got, h0))) = bind-succeeds _ _ s u d h in
      let (errs, (s1, (packed, h1))) = bind-succeeds _ _ s0 u d h0 in
      let (x1, (s2, (fine, h2))) = bind-succeeds _ _ s1 u d h1 in
      let (desc, (s3, (published, h3))) = bind-succeeds _ _ s2 u d h2 in
      let (update_errs, (s4, (updated, h4))) = bind-succeeds _ _ s3 u d h3 in
      let (x2, (s5, (fine_too, h5))) = bind-succeeds _ _ s4 u d h4 in
      let (x3, (s6, (tagged, h6))) = bind-succeeds _ _ s5 u d h5 in
      let (_, at0) = gets-succeeds _ s s0 packs got in
      let model1 : s1.model ≡ s.model =
        ap (λ x. x.1.model) (sym packed)
        ∙ ((packs-model s0.model packs).after s0 refl ∙ ap (λ q. q.model) at0) in
      let (_, at2) = lift-succeeds _ s1 s2 x1 fine in
      let model2 : s2.model ≡ s.model = ap (λ q. q.model) at2 ∙ model1 in
      let held3 =
        subst (λ m. Holds out m.ref cfg layers desc s3) model2
          (push_metadata-Holds s2 s3 desc (ap (λ m. m.cfg) model2 ∙ same_cfg)
            (ap (λ m. m.man.layers) model2 ∙ same_layers) published) in
      let held4 = subst (Holds out s.model.ref cfg layers desc) (ap (λ x. x.1) updated) (
        (run_updates-Keeps out _ (Holds-Unmoved s.model.ref desc) updates desc
            (preserving s.model.ref desc)).after
          s3 held3) in
      let (_, at5) = lift-succeeds _ s4 s5 x2 fine_too in
      let held5 = subst (Holds out s.model.ref cfg layers desc) (sym at5) held4 in
      let (held6, resolved) = tag_manifest-Holds s.model.ref desc s5 s6 x3 held5 tagged in
      let desc_is : desc ≡ d = ok-injective (ap (λ x. x.0) h6) in
      let at7 : s6 ≡ u = ap (λ x. x.1) h6 in
      (
        subst (λ q. Holds out s.model.ref cfg layers d q) at7
            (subst (λ e. Holds out s.model.ref cfg layers e s6) desc_is held6),
        ap (λ q. out.target.resolve q.target s.model.ref) (sym at7)
            ∙ (resolved ∙ ap (λ e. ok e) desc_is),
      )

module _ {T F : Type 0} (out : Outside T F) where
  -- What Push publishes, Fetch reads: in a registry that keeps what it has taken, with JSON that reads
  -- back what it prints of the object's config and layers, and with updates that preserve both and the
  -- reference, if Push returns a descriptor, then Fetch by an object as new for the same reference
  -- returns that descriptor, and has the config and the layers of the object that was pushed.
  pub fetch-push :
      (updates : List (Descriptor → Action (Session T F) (Unit {0}))) (s u : Session T F)
      (d : Descriptor) (f : F)
      → IsStore out s.model.cfg s.model.man.layers
      → Preserving out s.model.cfg s.model.man.layers updates
      → push out updates s ≡ (ok d, u)
      → ((fetch out (fresh s.model.ref u.target f)).0 ≡ ok d)
        × (((fetch out (fresh s.model.ref u.target f)).1.model.cfg ≡ s.model.cfg)
            × ((fetch out (fresh s.model.ref u.target f)).1.model.man.layers ≡ s.model.man.layers))
  fetch-push updates s u d f store preserving h =
      let (held, resolved) =
        steps out s.model.cfg s.model.man.layers store updates s u d preserving refl refl h in
      fetch-Holds out s.model.ref s.model.cfg s.model.man.layers d u f held resolved
