-- ===== src/Actions/Git/Start.antt =====
-- Run of git-remote-oci, with the connection that it makes before the loop.
use gnoci.Base.{[], ◌∷◌, Option, none, some, Text, text, trim_prefix}
use gnoci.Outcome.{Result, ok, err, crash, Action, bind, wrap}
use gnoci.Model.{new_modeler}
use gnoci.Cmd.Options.{Console}
use gnoci.Connect.{Platform, Address, Configuration, repo_opts_from_config, init_remote_conn}
use gnoci.Actions.Git.{GitAction, Host, run}

-- What NewGit makes; the console holds the communicator.
pub record GitTool : Type 0 where
  pub git_dir : Text
  pub address : Text
  pub console : Console

unfoldable pub new_git : Console → Text → Text → GitTool
new_git console git_dir address = record {
  git_dir = git_dir;
  address = trim_prefix address (text "oci://");
  console = console;
}

-- What Run calls before and after the loop: config.Load, registry.ParseReference and os.RemoveAll
pub record GitHost (C P K N T F L D : Type 0) : Type 0 where
  pub host : Host T F L
  pub platform : Platform C P K N T F
  pub load_config : Result Configuration
  pub parse_reference : Text → Result Address
  pub remove_all : Text → Action D (Unit {0})

module _ {C P K N T F L D : Type 0} (gh : GitHost C P K N T F L D) where
  get_config : Result Configuration
  get_config = wrap "loading configuration: %w" [] gh.load_config

  -- The reference, the registry, the directory of the file store, and the file store
  unfoldable pub connect : Text → Result (Address × (T × (Text × F)))
  unfolding get_config
  connect address = bind (wrap "getting configuration: %w" [] get_config) (λ cfg.
      bind (wrap "invalid reference %s: %w" (address ∷ []) (gh.parse_reference address)) (λ ref.
        bind
          (wrap "initializing: %w" []
            (init_remote_conn gh.platform ref (repo_opts_from_config ref.host cfg)))
          (λ conn. ok (ref, conn))))

  -- The action as the loop finds it
  unfoldable pub connected : GitTool → L → Address → T → F → GitAction T F L
  connected tool objects ref gt store = record {
    git_dir = tool.git_dir;
    local = none;
    console = tool.console;
    session = record { model = new_modeler ref.printed; target = gt; files = store; tickers = 0 };
    objects = objects;
  }

  -- The errors of the deferred clean-up are logged. Without a connection there is no action to show.
  run_connected :
      GitTool
      → L
      → Result (Address × (T × (Text × F)))
      → D
      → (Result (Unit {0}) × Option (GitAction T F L)) × D
  unfolding connected
  run_connected tool objects (ok (ref, (gt, (dir, store)))) disk =
      let (r, a) = run gh.host (connected tool objects ref gt store) in
      ((r, some a), (gh.remove_all dir disk).1)
  run_connected tool objects (err e) disk = ((err e, none), disk)
  run_connected tool objects (crash k) disk = ((crash k, none), disk)

  unfoldable pub run_git : GitTool → L → D → (Result (Unit {0}) × Option (GitAction T F L)) × D
  unfolding run_connected connect
  run_git tool objects disk = run_connected tool objects (connect tool.address) disk
