-- ===== src/Actions/GitLfs/Setup.antt =====
-- What the agent does before it answers the request to start: init and resolveAddress.
use gnoci.Base.{[], ◌∷◌, Text, text, text_eq, nat_eq, ◌==◌, has_prefix, trim_prefix, if◌then◌else◌}
use gnoci.Outcome.{Result, ok, err, errorf, Action, pure, lift, wrapping, bind, wrap, ◌>>=◌}
use gnoci.Connect.{Address, Configuration, repo_opts_from_config, init_remote_conn}
use gnoci.Transfer.{InitRequest, download_operation}
use gnoci.Actions.GitLfs.State.{Remote, LfsHost, Opened}

abbrev protocol_prefix : Text
protocol_prefix = text "oci://"

unfoldable pub trim_protocol : Text → Text
trim_protocol remote = trim_prefix remote protocol_prefix

module _ {C P K N T F D : Type 0} (host : LfsHost C P K N T F D) where
  first_url : Remote → Result Text
  first_url r = elim r.urls [
    | [] ↦ err (errorf "no URLs configured for remote %s" (r.printed ∷ []))
    | url ∷ urls ↦ ok url
  ]

  -- The message of the first error prints the remote that was not found, a nil pointer.
  url_of : (Text → Result Remote) → Text → Result Text
  unfolding trim_protocol first_url
  url_of remotes remote =
      if has_prefix remote protocol_prefix
      then ok (trim_protocol remote)
      else bind
          (wrap "resolving remote URL for %s: %w" (text "<nil>" ∷ [])
            (remotes (trim_protocol remote)))
          (λ found. bind (first_url found) (λ url. ok (trim_protocol url)))

  unfoldable pub resolve_address : Text → (Text → Result Remote) → Result Address
  unfolding url_of
  resolve_address remote remotes =
      bind (url_of remotes remote)
        (λ url. wrap "invalid reference %s: %w" (url ∷ []) (host.parse_reference url))

  get_config : Result Configuration
  get_config = wrap "loading configuration: %w" [] host.load_config

  pull_store : InitRequest → Action D Text
  pull_store req =
      let made =
        wrapping "preparing temporary LFS pull directory: %w" []
          (host.disk.make_temp (text "git-lfs-remote-oci-pull-*")) in
      if req.operation == download_operation then made else pure []

  unfoldable pub init : InitRequest → Action D (Opened T F)
  unfolding get_config resolve_address pull_store
  init req = do
    cfg ← lift (wrap "getting configuration: %w" [] get_config)
    remotes ← lift (wrap "opening local repository: %w" [] host.plain_open)
    ref ← lift (wrap "resolving remote URL: %w" [] (resolve_address req.remote remotes))
    conn ← lift (
        wrap "initializing remote connection: %w" []
          (init_remote_conn host.platform ref (repo_opts_from_config ref.host cfg)))
    store ← pull_store req
    pure (record { address = ref; target = conn.0; files = conn.1.1; lfs_store = store })
