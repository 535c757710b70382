-- ===== src/Process/Signals.antt =====
-- src/process.rs: `stop`, `terminate`, `signal` and `kill_all`.
pub mod Targets
pub mod Shutdown
use mesh_supervisor.Prelude.{
  if◌then◌else◌, nat_eq, Result, ◌>>=◌, ℤ, as_i32, neg_i32, ok, err, ℕ, String, Bool, true, false,
  not, Option, none, some, List, [], ◌∷◌,
}
use mesh_supervisor.Map.{Map, lookup, modify}
use mesh_supervisor.Proto.{Handle, ControlError, bad_request, is_running}
use mesh_supervisor.Process.State.{
  ProcEntry, Manager, Effect, kill, kill_leaf, remove_group, sigterm, sigkill,
}
use mesh_supervisor.Process.Table.{entry_of}
use mesh_supervisor.Store.Database.{Disk}

abbrev pub disarm : ProcEntry → ProcEntry
disarm e = record e { armed = false }

-- The pid of a running entry.
abbrev pub live_pid : ProcEntry → Option ℕ
live_pid e = if is_running e.status then some e.pid else none

-- The pids that `kill_all` collects, as i32.
unfoldable pub live_pids : Map Handle ProcEntry → List ℤ
live_pids [] = []
live_pids ((h, e) ∷ rest) =
    let pids = live_pids rest in if is_running e.status then as_i32 e.pid ∷ pids else pids

unfoldable pub send_all : ℤ → List ℤ → List Effect
send_all sig [] = []
send_all sig (p ∷ ps) = kill p sig ∷ send_all sig ps

unfoldable pub negate_all : List ℤ → List ℤ
negate_all [] = []
negate_all (p ∷ ps) = neg_i32 p ∷ negate_all ps

-- `Signal::try_from` of the nix crate, which numbers are signals, and what `format!` makes of
-- "invalid signal {sig}".
pub record SignalTable : Type 0 where
  pub is_valid : ℤ → Bool
  pub invalid_message : ℤ → String

abbrev pub not_running_message : String
not_running_message = "process is not running"

abbrev pub delivery_message : String
delivery_message = "signal delivery failed"

module _ (d : Disk) where
  -- `stop`: the manager, and the pid for which a `terminate` task starts.
  unfoldable pub stop : Manager d → Handle → Result ControlError (Manager d × Option ℕ)
  unfolding entry_of
  stop m id = do
    entry ← entry_of m.procs id
    ok (record m { procs = modify id disarm m.procs }, live_pid entry)

  -- The first half of `terminate`, before it sleeps for the deadline.
  unfoldable pub terminate_first : ℕ → List Effect
  terminate_first pid = kill (as_i32 pid) sigterm ∷ []

  unfoldable pub still_running : Option ProcEntry → Bool
  still_running none = false
  still_running (some e) = is_running e.status

  -- The second half, on the manager as it is after the deadline.
  unfoldable pub terminate_last : Manager d → Handle → ℕ → List Effect
  unfolding still_running
  terminate_last m id pid =
      if still_running (lookup id m.procs)
      then (if m.cgroups then kill_leaf id ∷ [] else kill (neg_i32 (as_i32 pid)) sigkill ∷ [])
      else []

  unfoldable pub send_signal :
      SignalTable → Bool → ProcEntry → ℤ → Result ControlError (List Effect)
  send_signal table delivered entry sig =
      if not (is_running entry.status)
      then err (bad_request not_running_message)
      else if not (table.is_valid sig)
      then err (bad_request (table.invalid_message sig))
      else if delivered
      then ok (kill (as_i32 entry.pid) sig ∷ [])
      else err (bad_request delivery_message)

  -- `signal`; `delivered` is what `kill` returns.
  unfoldable pub signal :
      SignalTable → Bool → Manager d → Handle → ℤ → Result ControlError (List Effect)
  unfolding entry_of send_signal
  signal table delivered m id sig = do
    entry ← entry_of m.procs id
    send_signal table delivered entry sig

  -- `kill_all` up to the wait: the flag, a SIGTERM for each running child, and the pids.
  unfoldable pub kill_all_first : Manager d → Manager d × List ℤ × List Effect
  unfolding live_pids send_all
  kill_all_first m =
      let pids = live_pids m.procs in (record m { shutdown = true }, pids, send_all sigterm pids)

  -- `kill_all` after the wait, with the pids collected before it.
  unfoldable pub kill_all_last : Manager d → List ℤ → List Effect
  unfolding send_all negate_all
  kill_all_last m pids = if m.cgroups then remove_group ∷ [] else send_all sigkill (negate_all pids)
