-- ===== src/Oci.antt =====
-- The OCI metadata (pkg/oci/types.go), and the libraries behind it as parameters: the registry
-- and the file store of oras, and the JSON encoding of manifests and configs.
use gnoci.Base.{ℕ, List, [], Option, none, Text, text}
use gnoci.Base.Dict.{Dict}
use gnoci.Outcome.{Result, Error, Action}

abbrev pub artifact_type_git_manifest : Text
artifact_type_git_manifest = text "application/vnd.ai.act3.git.repo.v1+json"

abbrev pub media_type_git_config : Text
media_type_git_config = text "application/vnd.ai.act3.git.config.v1+json"

abbrev pub media_type_pack_layer : Text
media_type_pack_layer = text "application/vnd.ai.act3.git.pack.v1"

abbrev pub artifact_type_lfs_manifest : Text
artifact_type_lfs_manifest = text "application/vnd.ai.act3.git-lfs.repo.v1+json"

abbrev pub media_type_lfs_layer : Text
media_type_lfs_layer = text "application/vnd.ai.act3.git-lfs.object.v1"

-- The commit that a reference points to and the digest of the layer that holds it
pub record ReferenceInfo : Type 0 where
  pub commit : Text
  pub layer : Text

-- `none` is a nil map, which a config without the field decodes to.
pub record ConfigGit : Type 0 where
  pub heads : Option (Dict ReferenceInfo)
  pub tags : Option (Dict ReferenceInfo)

-- The fields of ocispec.Descriptor and ocispec.Manifest that the code reads or writes
pub record Descriptor : Type 0 where
  pub media_type : Text
  pub digest : Text
  pub size : ℕ

pub record Manifest : Type 0 where
  pub media_type : Text
  pub artifact_type : Text
  pub config : Descriptor
  pub layers : List Descriptor

abbrev pub empty_descriptor : Descriptor
empty_descriptor = record { media_type = []; digest = []; size = 0 }

abbrev pub empty_manifest : Manifest
empty_manifest = record {
  media_type = [];
  artifact_type = [];
  config = empty_descriptor;
  layers = [];
}

abbrev pub empty_config : ConfigGit
empty_config = record { heads = none; tags = none }

-- oras.PackManifestOptions
pub record PackOptions : Type 0 where
  pub subject : Option Descriptor
  pub layers : List Descriptor
  pub config : Option Descriptor
  pub created : Text

-- An oras.GraphTarget with state `T`
pub record Target (T : Type 0) : Type 0 where
  pub resolve : T → Text → Result Descriptor
  -- content.FetchAll, and Fetch with a reader of the content
  pub fetch_all : T → Descriptor → Result Text
  pub fetch : T → Descriptor → Result Text
  pub push : Descriptor → Text → Action T (Unit {0})
  pub tag : Descriptor → Text → Action T (Unit {0})
  -- oras.PushBytes and oras.PackManifest of version 1.1
  pub push_bytes : Text → Text → Action T Descriptor
  pub pack_manifest : Text → PackOptions → Action T Descriptor
  -- registry.Referrers, both of its results
  pub referrers : T → Descriptor → List Descriptor × Option Error
  -- Delete, where the target is a *remote.Repository
  pub delete : Option (Descriptor → Action T (Unit {0}))

-- An oras file.Store with state `F`
pub record FileStore (F : Type 0) : Type 0 where
  pub add : Text → Text → Text → Action F Descriptor
  pub fetch : F → Descriptor → Result Text

-- encoding/json at the types above. Unmarshal writes into a value that is there already.
pub record Codec : Type 0 where
  pub marshal_config : ConfigGit → Result Text
  pub unmarshal_config : Text → Action ConfigGit (Unit {0})
  pub unmarshal_manifest : Text → Action Manifest (Unit {0})
