-- ===== src/Process/Supervise.antt =====
-- src/process.rs: the task that `spawn` starts for each handle, `supervise`, cut at the points
-- where other tasks may run. The waits, `child.wait()` and the backoff sleep, lie between the steps.
pub mod World
pub mod Invariant
pub mod Down
pub mod Edits
pub mod Disarmed
pub mod Races
pub mod Restarts
pub mod Capped
use mesh_supervisor.Prelude.{
  if◌then◌else◌, nat_eq, ℤ, ℕ, ◌+◌, ◌%◌, ◌^◌, Bool, false, not, ◌||◌, Option, none, some, List, [],
  ◌∷◌,
}
use mesh_supervisor.Map.{lookup, modify}
use mesh_supervisor.Proto.{Handle, Spec, ProcState, running, exited}
use mesh_supervisor.Process.Restart.{Verdict, finish, retry, after_exit}
use mesh_supervisor.Process.State.{ProcEntry, Launched, Manager, Effect, remove_leaf}
use mesh_supervisor.Process.Launch.{launch_child, persist, best_effort}
use mesh_supervisor.Store.Database.{Disk}
use mesh_supervisor.Store.{set_status}

-- Where the loop of `supervise` stands.
pub data Phase : Type 0 where
  watching : Phase
  reaped : Option ℤ → ℕ → Phase
  sleeping : ℕ → Phase
  launching : Phase
  finished : Phase

-- The variables of the loop. `attempt` counts consecutive fast restarts.
pub record Task : Type 0 where
  pub spec : Spec
  pub attempt : ℕ
  pub phase : Phase

-- `tokio::spawn(self.clone().supervise(id, spec, launched.child))`
abbrev pub new_task : Spec → Task
new_task spec = record { spec = spec; attempt = 0; phase = watching }

abbrev pub with_status : ProcState → ProcEntry → ProcEntry
with_status s e = record e { status = s }

-- The fields that a relaunch overwrites. `restarts` is a u32.
abbrev pub relaunched : Launched → ProcEntry → ProcEntry
relaunched l e = record e {
  pid = l.pid;
  status = running;
  stdin = l.stdin;
  stdout = l.stdout;
  restarts = (e.restarts + 1) % 2 ^ 32;
}

-- `get(&id).is_some_and(|e| e.armed)`
abbrev pub is_armed : Option ProcEntry → Bool
is_armed none = false
is_armed (some e) = e.armed

abbrev pub follow : Task → Verdict → Task
follow t finish = record t { phase = finished }
follow t (retry attempt delay) = record t { attempt = attempt; phase = sleeping delay }

module _ (d : Disk) where
  -- The child has exited with `code` after `elapsed`: the table, the store and the cgroup.
  unfoldable pub reap : Manager d → Handle → Option ℤ → Manager d × List Effect
  unfolding best_effort
  reap m id code = (
    record m {
      procs = modify id (with_status (exited code)) m.procs;
      store = best_effort (λ db. set_status d db id (exited code)) m.store;
    },
    if m.cgroups then remove_leaf id ∷ [] else [],
  )

  -- The first look at `shutdown` and `armed`, the policy, the count and the cap.
  unfoldable pub decide : Manager d → Handle → Task → Option ℤ → ℕ → Task
  decide m id t code elapsed = follow t (
      after_exit m.shutdown (is_armed (lookup id m.procs)) t.spec.policy t.spec.max_retries
        t.attempt code elapsed)

  -- The second look, after the sleep.
  unfoldable pub wake : Manager d → Handle → Task → Task
  wake m id t =
      if m.shutdown || not (is_armed (lookup id m.procs))
      then record t { phase = finished }
      else record t { phase = launching }

  -- The relaunch. The entry is edited if it is still there; the record is persisted in any case.
  unfoldable pub relaunch :
      Manager d → Handle → Task → Option Launched → Manager d × Task × List Effect
  unfolding launch_child persist
  relaunch m id t (some l) = (
    persist d (record m { procs = modify id (relaunched l) m.procs }) id t.spec l.pid running,
    record t { phase = watching },
    launch_child m.cgroups id t.spec (some l),
  )
  relaunch m id t none = (m, record t { phase = finished }, launch_child m.cgroups id t.spec none)
