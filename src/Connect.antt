-- ===== src/Connect.antt =====
-- The connection to the registry (internal/ociutil/remote.go, internal/actions/init.go, and
-- repoOptsFromConfig of internal/actions/run_git.go).
pub mod Certs
pub mod Options
use gnoci.Base.{
  List, [], ◌∷◌, Option, none, some, Bool, true, false, Text, text, text_eq, ◌==◌, if◌then◌else◌,
}
use gnoci.Base.Dict.{Dict, lookup, entries}
use gnoci.HttpClient.{TlsConfig, HttpClient, client_of}
use gnoci.Outcome.{
  Result, ok, err, crash, Error, is, wrapf, not_exist, bind, wrap, Action, pure, lift, asks,
  wrapping, ◌>>=◌, ◌>>◌,
}

-- A registry.Reference: its field Registry, what Host gives, and how it prints
pub record Address : Type 0 where
  pub registry : Text
  pub host : Text
  pub printed : Text

-- An entry of the configuration, and the configuration; `none` is a nil map.
pub record RegistryConfig : Type 0 where
  pub plain_http : Bool
  pub non_compliant : Bool

pub record Configuration : Type 0 where
  pub registries : Option (Dict RegistryConfig)

-- `none` is a nil credential store.
pub record RepositoryOptions (C : Type 0) : Type 0 where
  pub user_agent : Text
  pub plain_http : Bool
  pub non_compliant : Bool
  pub creds : Option C

-- The fields of the remote.Registry that create fills
pub record Connection (C P K N : Type 0) : Type 0 where
  pub client : HttpClient P K N
  pub user_agent : Text
  pub single_context_cache : Bool
  pub creds : Option C
  pub address : Address
  pub plain_http : Bool

-- What the set-up calls outside the repository: credential stores `C`, pools of certificates `P`,
-- key pairs `K`, dialers `N`, registry targets `T`, file stores `F`.
pub record Platform (C P K N T F : Type 0) : Type 0 where
  -- os.Stat, filepath.Join of two elements, os.ReadFile and xdg.Home
  pub stat : Text → Result (Unit {0})
  pub join_path : Text → Text → Text
  pub read_file : Text → Result Text
  pub home : Text
  -- credentials.NewStoreFromDocker and NewMemoryStore
  pub docker_creds : Result C
  pub memory_creds : C
  -- x509.SystemCertPool, AppendCertsFromPEM, tls.LoadX509KeyPair, and the zero tls.Certificate
  pub system_certs : Result P
  pub append_certs : Text → P → P
  pub load_key_pair : Text → Text → Result K
  pub no_key_pair : K
  -- proxy.FromEnvironment of golang.org/x/net, where `none` is nil
  pub proxy_dialer : Option N
  -- Repository of remote.Registry, whose result is a *remote.Repository
  pub repository : Connection C P K N → Result T
  -- os.MkdirTemp in the directory for temporary files, and file.New
  pub make_temp : Text → Result Text
  pub new_store : Text → Result F

abbrev pub git_user_agent : Text
git_user_agent = text "git-remote-oci"

abbrev pub git_lfs_user_agent : Text
git_lfs_user_agent = text "git-lfs-remote-oci"

abbrev pub gnoci_user_agent : Text
gnoci_user_agent = text "gnoci"

module _ {C : Type 0} where
  unfoldable pub configured : Option RegistryConfig → RepositoryOptions C → RepositoryOptions C
  configured none opts = opts
  configured (some reg) opts = record opts {
    plain_http = reg.plain_http;
    non_compliant = reg.non_compliant;
  }

  unfoldable pub repo_opts_from_config : Text → Configuration → RepositoryOptions C
  unfolding configured
  repo_opts_from_config host cfg = configured (lookup host (entries cfg.registries)) (record {
    user_agent = git_user_agent;
    plain_http = false;
    non_compliant = false;
    creds = none;
  })

module _ {C P K N T F : Type 0} (sys : Platform C P K N T F) where
  docker_or_memory : Result C → Result C
  docker_or_memory (ok c) = ok c
  docker_or_memory (err e) = ok sys.memory_creds
  docker_or_memory (crash k) = crash k

  creds_or_default : Option C → Result C
  unfolding docker_or_memory
  creds_or_default (some c) = ok c
  creds_or_default none = docker_or_memory sys.docker_creds

  unfoldable pub defaulter : RepositoryOptions C → Result (RepositoryOptions C)
  unfolding creds_or_default
  defaulter opts = bind (creds_or_default opts.creds) (λ c. ok (record opts {
    user_agent = if opts.user_agent == [] then gnoci_user_agent else opts.user_agent;
    creds = some c;
  }))

  -- One round of the loop of resolveTLSCertLocation; `later` is the rest of it.
  stat_or_later : Text → Result (Unit {0}) → Result Text → Result Text
  stat_or_later path (ok u) later = ok path
  stat_or_later path (err e) later =
      if is not_exist e
      then later
      else err (wrapf "error accessing the TLS certificates in %s: %w" (path ∷ []) e)
  stat_or_later path (crash k) later = crash k

  unfoldable pub resolve_tls_cert_location : List Text → Result Text
  unfolding stat_or_later
  resolve_tls_cert_location [] = ok []
  resolve_tls_cert_location (path ∷ paths) =
      stat_or_later path (sys.stat path) (resolve_tls_cert_location paths)

  unfoldable pub get_standard_cert_locations : Text → List Text
  get_standard_cert_locations host =
      sys.join_path (text "/etc/containerd/certs.d") host
      ∷ sys.join_path (text "/etc/docker/certs.d") host
      ∷ sys.join_path (sys.join_path sys.home (text ".docker/certs.d")) host
      ∷ []

  -- The key pair, where missing files give the zero one
  key_pair : Result K → Result K
  key_pair (ok k) = ok k
  key_pair (err e) =
      if is not_exist e
      then ok sys.no_key_pair
      else err (wrapf "error reading the certificate and key files: %w" [] e)
  key_pair (crash c) = crash c

  with_ca : Result Text → P → TlsConfig P K → Result (TlsConfig P K)
  with_ca (ok pem) pool cfg = ok (record cfg { root_cas = some (sys.append_certs pem pool) })
  with_ca (err e) pool cfg =
      if is not_exist e then ok cfg else err (wrapf "error reading the caFile: %w" [] e)
  with_ca (crash c) pool cfg = crash c

  unfoldable pub fetch_certs_from_location : Text → Result (TlsConfig P K)
  unfolding key_pair with_ca
  fetch_certs_from_location dir =
      bind (wrap "fetching system certs: %w" [] sys.system_certs) (λ pool.
        if dir == []
        then ok (record { certificates = []; root_cas = some pool })
        else bind
            (key_pair (
              sys.load_key_pair (sys.join_path dir (text "cert.pem"))
                (sys.join_path dir (text "key.pem"))))
            (λ pair.
              with_ca (sys.read_file (sys.join_path dir (text "ca.pem"))) pool
                (record { certificates = pair ∷ []; root_cas = none })))

  -- A custom path ends the search for certificates, and is not used.
  unfoldable pub new_http_client_with_ops : Text → Text → Result (HttpClient P K N)
  new_http_client_with_ops host custom =
      bind
        (if custom == []
          then resolve_tls_cert_location (get_standard_cert_locations host)
          else ok [])
        (λ dir. bind (fetch_certs_from_location dir) (λ ssl. ok (client_of ssl sys.proxy_dialer)))

  -- The connection that create hands to oras
  unfoldable pub create : Address → RepositoryOptions C → Result (Connection C P K N)
  create address opts = bind (new_http_client_with_ops address.registry []) (λ client. ok (record {
    client = client;
    user_agent = opts.user_agent;
    single_context_cache = opts.non_compliant;
    creds = opts.creds;
    address = address;
    plain_http = opts.plain_http;
  }))

  unfoldable pub new_graph_target : Address → RepositoryOptions C → Result T
  new_graph_target address opts =
      bind (bind (defaulter opts) (create address))
        (λ conn. wrap "creating registry repository: %w" [] (sys.repository conn))

  -- The registry, the directory of the file store, and the file store
  unfoldable pub init_remote_conn : Address → RepositoryOptions C → Result (T × (Text × F))
  init_remote_conn address opts =
      bind (wrap "initializing remote graph target: %w" [] (new_graph_target address opts)) (λ gt.
        bind
          (wrap "creating temporary directory for intermediate OCI file store: %w" []
            (sys.make_temp (text "GnOCI-fstore-*")))
          (λ dir.
            bind (wrap "initializing OCI filestore: %w" [] (sys.new_store dir))
              (λ store. ok (gt, (dir, store)))))
