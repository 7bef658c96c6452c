-- ===== src/Actions/Git.antt =====
-- git-remote-oci (internal/actions/run_git.go): the loop over Git's commands, from where the
-- connection to the registry is made.
pub mod Left
pub mod Ends
pub mod Start
use gnoci.Base.{
  ℕ, zero, suc, [], ◌∷◌, Option, none, some, Bool, true, false, Text, text_eq, ◌==◌, length,
  if◌then◌else◌,
}
use gnoci.Outcome.{
  Result, ok, err, crash, sentinel, errorf, wrapf, is, end_of_input, empty_request,
  unsupported_request, out_of_fuel, Action, pure, fail, lift, wrapping, attempt, within, ◌>>=◌,
  ◌>>◌,
}
use gnoci.Plumbing.{Repository}
use gnoci.Protocol.Commands
use gnoci.Protocol.Commands.{Command}
use gnoci.Comms.{Communicator, look_ahead}
use gnoci.Model.Session.{Outside, Session, fetch_or_default}
use gnoci.Cmd.Options.{Console, handle_capabilities, handle_option}
use gnoci.Cmd.Lists.{handle_list}
use gnoci.Cmd.Push.{Packer, Link, handle_push}
use gnoci.Cmd.Fetch.{ObjectStore, Download, handle_fetch}

-- The fields of the action that the commands use, with the objects behind them
pub record GitAction (T F L : Type 0) : Type 0 where
  pub git_dir : Text
  pub local : Option Repository
  pub console : Console
  pub session : Session T F
  pub objects : L

-- What the action calls outside the repository; `plain_open` is gogit.PlainOpen.
pub record Host (T F L : Type 0) : Type 0 where
  pub out : Outside T F
  pub packer : Packer F
  pub objects : ObjectStore L
  pub plain_open : Text → Result Repository

module _ {T F L : Type 0} where
  abbrev pub at_console : {A : Type 0} → Action Console A → Action (GitAction T F L) A
  at_console = within (λ a. a.console) (λ a c. record a { console = c })

  abbrev pub at_comm : {A : Type 0} → Action Communicator A → Action (GitAction T F L) A
  at_comm m = at_console (within (λ c. c.comm) (λ c d. record c { comm = d }) m)

  abbrev pub at_session : {A : Type 0} → Action (Session T F) A → Action (GitAction T F L) A
  at_session = within (λ a. a.session) (λ a s. record a { session = s })

  abbrev pub at_link : {A : Type 0} → Action (Link T F) A → Action (GitAction T F L) A
  at_link =
      within (λ a. record { session = a.session; comm = a.console.comm })
        (λ a l. record a { session = l.session; console = record a.console { comm = l.comm } })

  abbrev pub at_download : {A : Type 0} → Action (Download T F L) A → Action (GitAction T F L) A
  at_download =
      within (λ a. record { session = a.session; comm = a.console.comm; objects = a.objects })
        (λ a d. record a {
          session = d.session;
          console = record a.console { comm = d.comm };
          objects = d.objects;
        })

module _ {T F L : Type 0} (host : Host T F L) where
  opened : Result Repository → Action (GitAction T F L) Repository
  opened (ok r) a = (ok r, record a { local = some r })
  opened (err e) a = (err (wrapf "opening local repository: %w" [] e), a)
  opened (crash k) a = (crash k, a)

  open_once : Option Repository → Action (GitAction T F L) Repository
  unfolding opened
  open_once (some r) a = (ok r, a)
  open_once none a =
      if a.git_dir == []
      then (err (errorf "action.gitDir not defined, unable to open local repository" []), a)
      else opened (host.plain_open a.git_dir) a

  unfoldable pub local_repo : Action (GitAction T F L) Repository
  unfolding open_once
  local_repo a = open_once a.local a

  -- The repository, if there is a directory for it
  list_repo : Action (GitAction T F L) (Option Repository)
  unfolding local_repo
  list_repo a =
      let found = (do r ← local_repo; pure (some r)) in
      if a.git_dir == [] then (ok none, a) else found a

  unfoldable pub run_list : Action (GitAction T F L) (Unit {0})
  unfolding list_repo
  run_list = do
    local ← list_repo
    at_session (fetch_or_default host.out)
    wrapping "running list command: %w" [] (λ a. at_comm (handle_list local a.session.model) a)

  unfoldable pub run_push : Action (GitAction T F L) (Unit {0})
  unfolding local_repo
  run_push = do
    local ← local_repo
    at_session (fetch_or_default host.out)
    wrapping "running push commands: %w" [] (at_link (handle_push host.out host.packer local))

  unfoldable pub run_fetch : Action (GitAction T F L) (Unit {0})
  unfolding local_repo
  run_fetch = do
    local_repo
    wrapping "running fetch command: %w" [] (at_download (handle_fetch host.out host.objects))

  unfoldable pub run_command : Command → Action (GitAction T F L) (Unit {0})
  run_command c =
      if c == Commands.capabilities
      then wrapping "handling capabilities request: %w" []
          (at_console (within (λ x. x.comm) (λ x d. record x { comm = d }) handle_capabilities))
      else if c == Commands.options
      then wrapping "handling option request: %w" [] (at_console handle_option)
      else if c == Commands.list
      then wrapping "handling list request: %w" [] run_list
      else if c == Commands.push
      then wrapping "handling push request batch: %w" [] run_push
      else if c == Commands.fetch
      then wrapping "handling fetch request batch: %w" [] run_fetch
      else fail (wrapf "%w: %s" (c ∷ []) (sentinel unsupported_request))

  pub dispatch : Result Command → Action (GitAction T F L) Bool
  dispatch (ok c) = do run_command c; pure false
  dispatch (err e) =
      if is end_of_input e
      then pure true
      else if is empty_request e
      then pure false
      else fail (wrapf "command look ahead: %w" [] e)
  dispatch (crash k) = lift (crash k)

  -- The result says that Git has no more commands.
  unfoldable pub handle_cmd : Action (GitAction T F L) Bool
  unfolding dispatch
  handle_cmd = do c ← attempt (at_comm look_ahead); dispatch c

  -- The loop of Run
  unfoldable pub run_loop : ℕ → Action (GitAction T F L) (Unit {0})
  run_loop zero = lift (crash out_of_fuel)
  run_loop (suc fuel) = do done ← handle_cmd; elim done [ true ↦ pure tt | false ↦ run_loop fuel ]

  -- Every round but the last reads a line.
  unfoldable pub run : Action (GitAction T F L) (Unit {0})
  unfolding run_loop
  run a = run_loop (suc (length a.console.comm.input.lines)) a
