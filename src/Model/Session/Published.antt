-- ===== src/Model/Session/Published.antt =====
-- What Push publishes, Fetch reads.
use gnoci.Base.{◌≡◌, refl, List, some, Text, All}
use gnoci.Outcome.{Action, ok, ◌>>=◌}
use gnoci.Outcome.Keeps.{Keeps}
use gnoci.Oci.{Descriptor, Manifest, ConfigGit, PackOptions, empty_manifest, empty_config}
use gnoci.Model.{new_modeler, sort_refs_by_layer}
use gnoci.Model.Session.{Outside, Session, fetch, fetch_remote, resolve_base}

-- A registry that keeps what it has taken, and JSON that reads back, into values that are empty, what
-- it has printed of this config and of the manifests with these layers
pub record IsStore {T F : Type 0} (out : Outside T F) (cfg : ConfigGit) (layers : List Descriptor)
    : Type 0 where
  pub bytes_stored :
      (media raw : Text) (t u : T) (d : Descriptor)
      → out.target.push_bytes media raw t ≡ (ok d, u)
      → out.target.fetch_all u d ≡ ok raw
  pub manifest_stored :
      (media : Text) (o : PackOptions) (t u : T) (c d : Descriptor)
      → o.layers ≡ layers
      → o.config ≡ some c
      → out.target.pack_manifest media o t ≡ (ok d, u)
      → (raw : Text) × ((man : Manifest) × ((out.target.fetch_all u d ≡ ok raw)
            × ((out.codec.unmarshal_manifest raw empty_manifest ≡ (ok tt, man))
                × ((man.layers ≡ layers) × (man.config ≡ c)))))
  pub push_keeps :
      (e : Descriptor) (content : Text) (d : Descriptor) (raw : Text) (t : T)
      → out.target.fetch_all t d ≡ ok raw
      → out.target.fetch_all (out.target.push e content t).1 d ≡ ok raw
  pub bytes_keep :
      (media content : Text) (d : Descriptor) (raw : Text) (t : T)
      → out.target.fetch_all t d ≡ ok raw
      → out.target.fetch_all (out.target.push_bytes media content t).1 d ≡ ok raw
  pub pack_keeps :
      (media : Text) (o : PackOptions) (d : Descriptor) (raw : Text) (t : T)
      → out.target.fetch_all t d ≡ ok raw
      → out.target.fetch_all (out.target.pack_manifest media o t).1 d ≡ ok raw
  pub tag_keeps :
      (e : Descriptor) (ref : Text) (d : Descriptor) (raw : Text) (t : T)
      → out.target.fetch_all t d ≡ ok raw
      → out.target.fetch_all (out.target.tag e ref t).1 d ≡ ok raw
  pub tag_resolves :
      (d : Descriptor) (ref : Text) (t u : T)
      → out.target.tag d ref t ≡ (ok tt, u)
      → out.target.resolve u ref ≡ ok d
  pub config_back :
      (raw : Text)
      → out.codec.marshal_config cfg ≡ ok raw
      → out.codec.unmarshal_config raw empty_config ≡ (ok tt, cfg)

-- The session of an object as new
abbrev pub fresh : {T F : Type 0} → Text → T → F → Session T F
fresh ref t f = record { model = new_modeler ref; target = t; files = f; tickers = 0 }

module _ {T F : Type 0} (out : Outside T F) where
  -- What the registry holds of a manifest, under its descriptor
  pub record Holds (ref : Text) (cfg : ConfigGit) (layers : List Descriptor) (d : Descriptor)
      (s : Session T F) : Type 0 where
    pub man_raw : Text
    pub man : Manifest
    pub cfg_raw : Text
    pub ref_is : s.model.ref ≡ ref
    pub manifest_there : out.target.fetch_all s.target d ≡ ok man_raw
    pub manifest_back : out.codec.unmarshal_manifest man_raw empty_manifest ≡ (ok tt, man)
    pub layers_are : man.layers ≡ layers
    pub config_there : out.target.fetch_all s.target man.config ≡ ok cfg_raw
    pub config_back : out.codec.unmarshal_config cfg_raw empty_config ≡ (ok tt, cfg)

  -- Fetch, from an object as new, of what the registry holds
  pub fetch-Holds :
      (ref : Text) (cfg : ConfigGit) (layers : List Descriptor) (d : Descriptor) (s : Session T F)
      (f : F)
      → Holds ref cfg layers d s
      → out.target.resolve s.target ref ≡ ok d
      → ((fetch out (fresh ref s.target f)).0 ≡ ok d)
        × (((fetch out (fresh ref s.target f)).1.model.cfg ≡ cfg)
            × ((fetch out (fresh ref s.target f)).1.model.man.layers ≡ layers))
  unfolding fetch fetch_remote resolve_base new_modeler sort_refs_by_layer ◌>>=◌
  fetch-Holds ref cfg layers d s f h tagged =
      rw (tagged, h.manifest_there, h.manifest_back, h.config_there, h.config_back)
        (refl, (refl, h.layers_are))

  pub Holds-moved :
      (ref : Text) (cfg : ConfigGit) (layers : List Descriptor) (d : Descriptor) (s : Session T F)
      (t : T)
      → ((e : Descriptor) (raw : Text)
          → out.target.fetch_all s.target e ≡ ok raw
          → out.target.fetch_all t e ≡ ok raw)
      → Holds ref cfg layers d s
      → Holds ref cfg layers d (record s { target = t })
  Holds-moved ref cfg layers d s t kept h = record {
    man_raw = h.man_raw;
    man = h.man;
    cfg_raw = h.cfg_raw;
    ref_is = h.ref_is;
    manifest_there = kept d h.man_raw h.manifest_there;
    manifest_back = h.manifest_back;
    layers_are = h.layers_are;
    config_there = kept h.man.config h.cfg_raw h.config_there;
    config_back = h.config_back;
  }

  -- The updates leave what the registry holds, and the modeler's reference.
  abbrev pub Preserving :
      ConfigGit → List Descriptor → List (Descriptor → Action (Session T F) (Unit {0})) → Type 0
  Preserving cfg layers updates =
      (ref : Text) (d : Descriptor)
      → All (λ update. (e : Descriptor) → Keeps (Holds ref cfg layers d) (update e)) updates
