-- ===== src/Process/Launch.antt =====
-- src/process.rs: `with_store`, `launch_child`, `persist` and `spawn`.
pub mod Environment
pub mod Spawn
pub mod Reloaded
pub mod Child
pub mod Hidden
use mesh_supervisor.Prelude.{
  if◌then◌else◌, nat_eq, string_eq, Result, ok, err, ℕ, ◌+◌, ◌%◌, ◌^◌, String, Bool, true, false,
  Option, none, some, List, [], ◌∷◌, ◌++◌,
}
use mesh_supervisor.Map.{Map, insert}
use mesh_supervisor.Proto.{Handle, Spec, ProcState, running}
use mesh_supervisor.Process.Record.{Record}
use mesh_supervisor.Process.State.{
  Launched, ProcEntry, stale_entry, Command, Effect, create_leaf, exec, remove_leaf, Manager,
}
use mesh_supervisor.Store.Database.{Disk, StoreError}
use mesh_supervisor.Store.{Loaded, put}

abbrev pub default_path : String
default_path = "/usr/bin:/bin"

-- `.envs(…)`: each pair is set in turn, over one that is there.
unfoldable pub set_all : List (String × String) → Map String String → Map String String
set_all [] env = env
set_all ((k, v) ∷ rest) env = set_all rest (insert k v env)

-- `env_clear`, then PATH, then what the client passes.
unfoldable pub child_env : List (String × String) → Map String String
unfolding set_all
child_env env = set_all env (insert "PATH" default_path [])

unfoldable pub command_of : Spec → Command
unfolding child_env
command_of spec = record { cmd = spec.cmd; args = spec.args; env = child_env spec.env }

-- `launch_child`, given what the operating system's spawn returns: the calls made.
unfoldable pub launch_child : Bool → Handle → Spec → Option Launched → List Effect
unfolding command_of
launch_child cgroups id spec outcome =
    (if cgroups then create_leaf id spec.limits ∷ [] else [])
    ++ exec id (command_of spec)
      ∷ elim outcome [ some launched ↦ [] | none ↦ if cgroups then remove_leaf id ∷ [] else [] ]

-- A store call whose error is only logged.
unfoldable pub best_effort : {Db : Type 0} → (Db → Result StoreError Db) → Option Db → Option Db
best_effort f none = none
best_effort f (some db) = elim (f db) [ ok db' ↦ some db' | err e ↦ some db ]

unfoldable pub record_of : Spec → ℕ → ProcState → Record
record_of spec pid status = record {
  cmd = spec.cmd;
  args = spec.args;
  env = spec.env;
  pid = pid;
  status = status;
}

module _ (d : Disk) where
  -- `persist`
  unfoldable pub persist : Manager d → Handle → Spec → ℕ → ProcState → Manager d
  unfolding best_effort record_of
  persist m id spec pid status = record m {
    store = best_effort (λ db. put d db id (record_of spec pid status)) m.store;
  }

  -- The keys on disk are distinct, so that the order of insertion is not seen.
  unfoldable pub stale_entries : List (Handle × Record) → Map Handle ProcEntry
  unfolding stale_entry
  stale_entries [] = []
  stale_entries ((id, rec) ∷ rest) = insert id (stale_entry rec) (stale_entries rest)

  -- `with_store`
  unfoldable pub with_store : d.Db → Loaded → Bool → ℕ → Manager d
  unfolding stale_entries
  with_store store loaded cgroups stop_deadline = record {
    procs = stale_entries loaded.records;
    next = loaded.next_handle;
    store = some store;
    cgroups = cgroups;
    shutdown = false;
    stop_deadline = stop_deadline;
  }

  -- The entry that `spawn` inserts.
  unfoldable pub new_entry : Launched → ProcEntry
  new_entry l = record {
    pid = l.pid;
    status = running;
    stdin = l.stdin;
    stdout = l.stdout;
    restarts = 0;
    armed = true;
  }

  -- The handle of the next spawn: `fetch_add(1) + 1`, on u64.
  abbrev pub next_id : Manager d → Handle
  next_id m = (m.next + 1) % 2 ^ 64

  unfoldable pub register : Manager d → Spec → Option Launched → Manager d × Option (Handle × ℕ)
  unfolding persist new_entry
  register m spec none = (record m { next = next_id m }, none)
  register m spec (some l) =
      let id : Handle = next_id m in
      let table = insert id (new_entry l) m.procs in
      (persist (record m { procs = table; next = id }) id spec l.pid running, some (id, l.pid))

  -- `spawn`: the manager, the handle and pid or the failure, and the calls. The counter advances
  -- before the launch, also where the launch fails.
  unfoldable pub spawn :
      Manager d → Spec → Option Launched → Manager d × Option (Handle × ℕ) × List Effect
  unfolding register launch_child
  spawn m spec outcome =
      let (m', reply) = register m spec outcome in
      (m', reply, launch_child m.cgroups (next_id m) spec outcome)
