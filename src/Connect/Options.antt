-- ===== src/Connect/Options.antt =====
-- What the configuration makes of a connection.
use gnoci.Base.{
  ◌≡◌, refl, sym, ap, [], Option, none, some, Bool, false, Text, text_eq, list_beq, ◌==◌,
  if◌then◌else◌,
}
use gnoci.Base.Dict.{lookup, entries}
use gnoci.Outcome.{ok, bind-eq-ok, wrap-eq-ok, bind}
use gnoci.HttpClient.{
  TlsConfig, Transport, HttpClient, proxy_dial, transported, logged, retried, default_transport,
  with_dialer, client_of,
}
use gnoci.Connect.{
  Platform, Address, Configuration, RegistryConfig, RepositoryOptions, Connection, git_user_agent,
  gnoci_user_agent, configured, repo_opts_from_config, creds_or_default, defaulter,
  new_http_client_with_ops, resolve_tls_cert_location, get_standard_cert_locations,
  fetch_certs_from_location, create, new_graph_target,
}

-- What the configuration says for a host that may have no entry
abbrev pub says : (RegistryConfig → Bool) → Option RegistryConfig → Bool
says setting none = false
says setting (some reg) = setting reg

ok-injective : {A : Type 0} {a b : A} → ok a ≡ ok b → a ≡ b
ok-injective h = cc

module _ (C : Type 0) where
  abbrev base : RepositoryOptions C
  base = record {
    user_agent = git_user_agent;
    plain_http = false;
    non_compliant = false;
    creds = none;
  }

  abbrev agent_of : RepositoryOptions C → Text
  agent_of opts = if opts.user_agent == [] then gnoci_user_agent else opts.user_agent

  agent : (l : Option RegistryConfig) → agent_of (configured l base) ≡ git_user_agent
  unfolding configured list_beq
  agent none = refl
  agent (some reg) = refl

  plain_http :
      (l : Option RegistryConfig) → (configured l base).plain_http ≡ says (λ r. r.plain_http) l
  unfolding configured
  plain_http none = refl
  plain_http (some reg) = refl

  cache :
      (l : Option RegistryConfig)
      → (configured l base).non_compliant ≡ says (λ r. r.non_compliant) l
  unfolding configured
  cache none = refl
  cache (some reg) = refl

module _ {C P K N T F : Type 0} (sys : Platform C P K N T F) where
  -- A connection as the configuration asks for it, with the certificates found for the registry
  pub record IsConfigured (address : Address) (cfg : Configuration) (conn : Connection C P K N)
      : Type 0 where
    pub address_is : conn.address ≡ address
    pub agent_is : conn.user_agent ≡ git_user_agent
    pub plain_http_is :
        conn.plain_http ≡ says (λ r. r.plain_http) (lookup address.host (entries cfg.registries))
    pub cache_is :
        conn.single_context_cache
        ≡ says (λ r. r.non_compliant) (lookup address.host (entries cfg.registries))
    pub certs : TlsConfig P K
    pub certs_found :
        bind
          (resolve_tls_cert_location sys (get_standard_cert_locations sys address.registry))
          (fetch_certs_from_location sys)
        ≡ ok certs
    pub transport : Transport P K N
    pub certs_used : transport.tls_client_config ≡ some certs
    pub dialer_used : (d : N) → sys.proxy_dialer ≡ some d → transport.dial_context ≡ proxy_dial d
    pub client_is : conn.client.transport ≡ retried (logged (transported transport))
    pub has_creds : (c : C) × (conn.creds ≡ some c)

  module _ (address : Address) (cfg : Configuration) where
    abbrev asked : RepositoryOptions C
    asked = repo_opts_from_config address.host cfg

    dialed :
        (dialer : Option N) (t : Transport P K N) (d : N)
        → dialer ≡ some d
        → (with_dialer dialer t).dial_context ≡ proxy_dial d
    unfolding with_dialer
    dialed none t d h = cc
    dialed (some e) t d h = cc

    with_dialer-certs :
        (dialer : Option N) (t : Transport P K N)
        → (with_dialer dialer t).tls_client_config ≡ t.tls_client_config
    unfolding with_dialer
    with_dialer-certs none t = refl
    with_dialer-certs (some e) t = refl

    -- The client for no custom path, with the certificates that it uses
    client-certs :
        (host : Text) (client : HttpClient P K N)
        → new_http_client_with_ops sys host [] ≡ ok client
        → (certs : TlsConfig P K) × (bind
              (resolve_tls_cert_location sys (get_standard_cert_locations sys host))
              (fetch_certs_from_location sys)
            ≡ ok certs)
          × (client ≡ client_of certs sys.proxy_dialer)
    unfolding new_http_client_with_ops list_beq
    client-certs host client h =
        let (dir, found, rest) =
          bind-eq-ok (resolve_tls_cert_location sys (get_standard_cert_locations sys host)) _ h in
        let (certs, read, made) = bind-eq-ok (fetch_certs_from_location sys dir) _ rest in
        (certs, rw found read, sym (ok-injective made))

    made-IsConfigured :
        (opts : RepositoryOptions C) (conn : Connection C P K N)
        → defaulter sys asked ≡ ok opts
        → create sys address opts ≡ ok conn
        → IsConfigured address cfg conn
    unfolding defaulter create repo_opts_from_config client_of default_transport
    made-IsConfigured opts conn d c =
        let (creds, _, defaulted) = bind-eq-ok (creds_or_default sys asked.creds) _ d in
        let (client, built, connected) =
          bind-eq-ok (new_http_client_with_ops sys address.registry []) _ c in
        let (certs, found, client_is) = client-certs address.registry client built in
        let base = record default_transport { tls_client_config = some certs } in
        let conn_is : conn ≡ _ = sym (ok-injective connected) in
        let opts_is : opts ≡ _ = sym (ok-injective defaulted) in
        rw (conn_is, opts_is)
          (record {
            address_is = refl;
            agent_is = agent C (lookup address.host (entries cfg.registries));
            plain_http_is = plain_http C (lookup address.host (entries cfg.registries));
            cache_is = cache C (lookup address.host (entries cfg.registries));
            certs = certs;
            certs_found = found;
            transport = with_dialer sys.proxy_dialer base;
            certs_used = with_dialer-certs sys.proxy_dialer base;
            dialer_used = dialed sys.proxy_dialer base;
            client_is = ap (λ k. k.transport) client_is;
            has_creds = (creds, refl);
          })

    -- Where NewGraphTarget succeeds with the options that repoOptsFromConfig gives, it has asked oras
    -- for the repository over a connection to the address with the user agent of git-remote-oci, with
    -- plain HTTP and the single-context cache exactly when the configuration's entry for the host
    -- says so, with a credential store, and with a client whose requests pass through the retries and
    -- then the log to a transport that has the certificates found for the registry and calls the
    -- dialer of the proxy if there is one.
    pub new_graph_target-IsConfigured :
        (t : T)
        → new_graph_target sys address asked ≡ ok t
        → (conn : Connection C P K N) × ((sys.repository conn ≡ ok t)
            × IsConfigured address cfg conn)
    unfolding new_graph_target
    new_graph_target-IsConfigured t h =
        let (conn, made, rest) = bind-eq-ok (bind (defaulter sys asked) (create sys address)) _ h in
        let (opts, d, c) = bind-eq-ok (defaulter sys asked) _ made in
        (conn, (wrap-eq-ok _ _ (sys.repository conn) rest, made-IsConfigured opts conn d c))
