-- ===== src/Tests/Store.antt =====
-- A registry that keeps what it has taken: the digest of an object is its content.
use mathlib.Core.List.{reverse}
use gnoci.Base.{
  fields, is_space, List, ◌∷◌, ◌++◌, map, Text, ◌≡◌, refl, sym, ◌∙◌, ap, [], Option, none, some,
  Bool, true, false, ◌&&◌, text, text_eq, nat_beq, nat_beq_iff, ◌==◌, list_beq, arith,
  if◌then◌else◌,
}
use gnoci.Outcome.{wrapping, for_each, ok, err, Error, errorf, sentinel, not_found, ◌>>=◌}
use gnoci.Comms.{next, receive_fetch_batch, write_fetch_response}
use gnoci.Protocol.Fetch.{parse_fetch_request}
use gnoci.Model.{Modeler, sort_refs_by_layer, new_modeler}
use gnoci.Model.Layers.{fetch_layers_reverse}
use gnoci.Cmd.Fetch.{ObjectStore, Download, handle_fetch}
use gnoci.Cmd.Fetch.Unpacked.{update_all, handle_fetch-unpacked}
use gnoci.Tests.{reading, small_outside, small_session, small_model}
use gnoci.Outcome.Succeeds.{ok-injective}
use gnoci.Oci.{ConfigGit, Descriptor, Target, empty_manifest, media_type_git_config}
use gnoci.Model.Session.{Outside, Session, push, fetch, default_model, fetch_or_default}
use gnoci.Model.Session.Published.{IsStore, fresh}
use gnoci.Model.Session.Republished.{fetch-push}

-- The config's descriptor, and the only manifest that is packed
abbrev pub config_desc : Descriptor
config_desc = record { media_type = media_type_git_config; digest = text "c"; size = 0 }

abbrev pub man_desc : Descriptor
man_desc = record { media_type = []; digest = text "m"; size = 0 }

abbrev pub is_config : Option Descriptor → Bool
is_config none = false
is_config (some d) =
    d.media_type == media_type_git_config && d.digest == text "c" && nat_beq d.size 0

abbrev content_store : Target (Option Descriptor)
content_store = record {
  resolve = λ t ref. elim t [ none ↦ err (sentinel not_found) | some d ↦ ok d ];
  fetch_all = λ t d. ok d.digest;
  fetch = λ t d. ok d.digest;
  push = λ d raw t. (ok tt, t);
  tag = λ d ref t. (ok tt, some d);
  push_bytes = λ media raw t. (ok (record { media_type = media; digest = raw; size = 0 }), t);
  pack_manifest =
      λ media o t. (if is_config o.config then ok man_desc else err (errorf "no config" []), t);
  referrers = λ t d. ([], none);
  delete = none;
}

-- The store with JSON that reads back one config and one list of layers
abbrev pub keeping_of : ConfigGit → List Descriptor → Outside (Option Descriptor) (Unit {0})
keeping_of cfg layers = record small_outside {
  target = content_store;
  codec = record {
    marshal_config = λ c. ok (text "c");
    unmarshal_config = λ raw c. (ok tt, cfg);
    unmarshal_manifest =
        λ raw m. (ok tt, record empty_manifest { config = config_desc; layers = layers });
  };
}

abbrev keeping : Outside (Option Descriptor) (Unit {0})
keeping = keeping_of small_model.cfg small_model.man.layers

some-injective : {a b : Descriptor} → some a ≡ some b → a ≡ b
some-injective h = cc

pub chosen :
    (b : Bool) (d : Descriptor) (e : Error) → (if b then ok man_desc else err e) ≡ ok d → b ≡ true
chosen false d e h = cc
chosen true d e h = refl

is_config-fields :
    (x : Descriptor)
    → is_config (some x) ≡ true
    → (config_desc.media_type ≡ x.media_type)
      × ((config_desc.digest ≡ x.digest) × (config_desc.size ≡ x.size))
is_config-fields x h = ground (
  arith,
  text_eq.beq_iff x.media_type media_type_git_config,
  text_eq.beq_iff x.digest (text "c"),
  nat_beq_iff x.size 0,
)

pub packed-config :
    (c d : Descriptor) (e : Error) (o : Option Descriptor)
    → o ≡ some c
    → (if is_config o then ok man_desc else err e) ≡ ok d
    → config_desc ≡ c
packed-config c d e none is_some h = cc
packed-config c d e (some x) is_some h =
    let (media, (digest, size)) = is_config-fields x (chosen (is_config (some x)) d e h) in
    (λ i. record { media_type = media i; digest = digest i; size = size i })
    ∙ some-injective is_some

pub keeping_of-IsStore :
    (cfg : ConfigGit) (layers : List Descriptor) → IsStore (keeping_of cfg layers) cfg layers
keeping_of-IsStore cfg layers = record {
  bytes_stored = λ media raw t u d h. ap (λ x. ok x.digest) (sym (ok-injective (ap (λ x. x.0) h)));
  manifest_stored = λ media o t u c d same some_c h. (
    d.digest,
    (_, (refl, (refl, (refl, packed-config c d _ o.config some_c (ap (λ x. x.0) h))))),
  );
  push_keeps = λ e content d raw t h. h;
  bytes_keep = λ media content d raw t h. h;
  pack_keeps = λ media o d raw t h. h;
  tag_keeps = λ e ref d raw t h. h;
  tag_resolves = λ d ref t u h. let at : u ≡ some d = sym (ap (λ x. x.1) h) in rw at refl;
  config_back = λ raw h. refl;
}

abbrev published : Session (Option Descriptor) (Unit {0})
published = (push keeping [] small_session).1

pushed : push keeping [] small_session ≡ (ok man_desc, published)
unfolding push new_modeler list_beq ◌>>=◌
pushed = refl

fetch-push_example :
    ((fetch keeping (fresh small_session.model.ref published.target tt)).0 ≡ ok man_desc)
    × (((fetch keeping (fresh small_session.model.ref published.target tt)).1.model.cfg
          ≡ small_model.cfg)
        × ((fetch keeping (fresh small_session.model.ref published.target tt)).1.model.man.layers
            ≡ small_model.man.layers))
fetch-push_example =
    fetch-push keeping [] small_session published man_desc tt
      (keeping_of-IsStore small_model.cfg small_model.man.layers) (λ ref d. tt) pushed

-- A local store that lists the packs that it has taken
abbrev listing : ObjectStore (List Text)
listing = record {
  is_storer = true;
  update = λ pack packs. (ok tt, packs ++ (pack ∷ []));
  close = λ pack. ok tt;
}

abbrev cloning : Download (Option Descriptor) (Unit {0}) (List Text)
cloning = record {
  session = fresh small_session.model.ref published.target tt;
  comm = reading (text "fetch 2 refs/heads/main" ∷ [] ∷ []);
  objects = [];
}

abbrev cloned : Download (Option Descriptor) (Unit {0}) (List Text)
cloned = (handle_fetch keeping listing cloning).1

clones : handle_fetch keeping listing cloning ≡ (ok tt, cloned)
unfolding handle_fetch fetch fetch_layers_reverse receive_fetch_batch write_fetch_response wrapping
    ◌>>=◌ new_modeler push list_beq next fields is_space parse_fetch_request for_each
    sort_refs_by_layer
clones = refl

handle_fetch-unpacked_example :
    (desc : Descriptor) × ((s : Session (Option Descriptor) (Unit {0})) × ((packs : List Text)
        × ((fetch keeping cloning.session ≡ (ok desc, s))
            × ((map (content_store.fetch s.target) (reverse s.model.man.layers) ≡ map ok packs)
                × (update_all listing packs [] ≡ (ok tt, cloned.objects))))))
handle_fetch-unpacked_example = handle_fetch-unpacked keeping listing cloning cloned clones

-- A repository that does not exist yet, and a registry whose JSON reads back its first config
abbrev first_model : Modeler
first_model = default_model small_outside (new_modeler (text "reg/repo:tag"))

abbrev starting : Outside (Option Descriptor) (Unit {0})
starting = keeping_of first_model.cfg []

abbrev absent : Session (Option Descriptor) (Unit {0})
absent = fresh (text "reg/repo:tag") none tt

abbrev made : Session (Option Descriptor) (Unit {0})
made = (fetch_or_default starting absent).1
