-- ===== src/Actions/GitLfs/State.antt =====
-- The state of the agent, and what it calls outside the repository.
use gnoci.Base.{ℕ, List, Option, Text, text_eq, nat_eq, ℤ}
use gnoci.Outcome.{Result, Action, within}
use gnoci.Model.Session.{Outside, Session}
use gnoci.Connect.{Platform, Address, Configuration}
use gnoci.Transfer.Wire.{Wire, WireCodec}

-- A *git.Remote: how it prints, and the URLs of its configuration
pub record Remote : Type 0 where
  pub printed : Text
  pub urls : List Text

-- The file system, as the agent uses it
pub record Disk (D : Type 0) : Type 0 where
  -- os.MkdirTemp in the directory for temporary files, and os.RemoveAll
  pub make_temp : Text → Action D Text
  pub remove_all : Text → Action D (Unit {0})
  -- os.OpenFile, which creates the file if it is not there, and io.Copy to it: how much was copied
  pub open_file : Text → Action D (Unit {0})
  pub copy : Text → Text → Action D ℕ

-- The messages of a ticker, a total and a delta each: those sent by the time that the model's call
-- returns, and those after it, up to the end of the ticker; `none` if it never ends.
pub record Ticks : Type 0 where
  pub before : List (ℤ × ℤ)
  pub after : Option (List (ℤ × ℤ))

pub record LfsHost (C P K N T F D : Type 0) : Type 0 where
  pub out : Outside T F
  pub json : WireCodec
  pub platform : Platform C P K N T F
  pub disk : Disk D
  -- config.Load on the configuration files
  pub load_config : Result Configuration
  -- git.PlainOpen at the working directory, with Remote of the repository
  pub plain_open : Result (Text → Result Remote)
  -- registry.ParseReference
  pub parse_reference : Text → Result Address
  pub ticks : Session T F → Ticks

-- The fields of the action that are set once init has succeeded, with the objects behind them
pub record LfsAction (T F D : Type 0) : Type 0 where
  pub wire : Wire
  pub session : Session T F
  pub lfs_store : Text
  pub disk : D

-- The action of Run; there is no session before init, or if it fails.
pub record Agent (T F D : Type 0) : Type 0 where
  pub wire : Wire
  pub disk : D
  pub session : Option (Session T F)

-- What init makes
pub record Opened (T F : Type 0) : Type 0 where
  pub address : Address
  pub target : T
  pub files : F
  pub lfs_store : Text

module _ {T F D : Type 0} where
  abbrev pub at_wire : {A : Type 0} → Action Wire A → Action (LfsAction T F D) A
  at_wire = within (λ a. a.wire) (λ a w. record a { wire = w })

  abbrev pub at_session : {A : Type 0} → Action (Session T F) A → Action (LfsAction T F D) A
  at_session = within (λ a. a.session) (λ a s. record a { session = s })

  abbrev pub at_disk : {A : Type 0} → Action D A → Action (LfsAction T F D) A
  at_disk = within (λ a. a.disk) (λ a d. record a { disk = d })
