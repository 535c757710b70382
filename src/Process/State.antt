-- ===== src/Process/State.antt =====
-- src/process.rs: the process table, its entries, and what the manager does to the operating
-- system. A stdin or stdout is named by a number of its own.
use mesh_supervisor.Prelude.{ℤ, pos, ℕ, ◌*◌, String, Bool, false, Option, none, List, []}
use mesh_supervisor.Map.{Map}
use mesh_supervisor.Proto.{Handle, ProcState, ProcInfo, Limits}
use mesh_supervisor.Process.Record.{Record, reloaded}
use mesh_supervisor.Store.Database.{Disk}

-- `Arc<AsyncMutex<Option<ChildStdin>>>`: `closed` is a lock that holds no pipe from the start.
pub data Stdin : Type 0 where
  closed : Stdin
  pipe : ℕ → Stdin

-- `broadcast::Receiver<Bytes>`: `ended` is a receiver whose sender is dropped.
pub data Stdout : Type 0 where
  ended : Stdout
  channel : ℕ → Stdout

pub record Launched : Type 0 where
  pub child : ℕ
  pub pid : ℕ
  pub stdin : Stdin
  pub stdout : Stdout

pub record ProcEntry : Type 0 where
  pub pid : ℕ
  pub status : ProcState
  pub stdin : Stdin
  pub stdout : Stdout
  pub restarts : ℕ
  pub armed : Bool

-- `ProcEntry::stale`
unfoldable pub stale_entry : Record → ProcEntry
unfolding reloaded
stale_entry rec = record {
  pid = rec.pid;
  status = reloaded rec.status;
  stdin = closed;
  stdout = ended;
  restarts = 0;
  armed = false;
}

-- `ProcEntry::info`
unfoldable pub info : ProcEntry → Handle → ProcInfo
info e handle = record {
  handle = handle;
  pid = e.pid;
  state = e.status;
  usage = none;
  restarts = e.restarts;
}

-- What a `tokio::process::Command` runs.
pub record Command : Type 0 where
  pub cmd : String
  pub args : List String
  pub env : Map String String

-- Calls that reach the kernel, in the order in which they are made. A process group is the
-- negative of its leader's pid.
pub data Effect : Type 0 where
  create_leaf : Handle → Limits → Effect
  exec : Handle → Command → Effect
  remove_leaf : Handle → Effect
  kill_leaf : Handle → Effect
  remove_group : Effect
  kill : ℤ → ℤ → Effect

abbrev pub sigterm : ℤ
sigterm = pos 15

abbrev pub sigkill : ℤ
sigkill = pos 9

-- `Inner`: `store` and `cgroups` are absent in tests and on hosts without a delegated subtree.
pub record Manager (d : Disk) : Type 0 where
  pub procs : Map Handle ProcEntry
  pub next : ℕ
  pub store : Option d.Db
  pub cgroups : Bool
  pub shutdown : Bool
  pub stop_deadline : ℕ

-- `Inner::default`
abbrev pub fresh_manager : (d : Disk) → Manager d
fresh_manager d = record {
  procs = [];
  next = 1;
  store = none;
  cgroups = false;
  shutdown = false;
  stop_deadline = 5 * 1000;
}
