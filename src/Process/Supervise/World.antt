-- ===== src/Process/Supervise/World.antt =====
-- The manager of src/process.rs with its supervise tasks: what one step of any of them, or of a
-- control request, does. The order of the steps is free.
use mesh_supervisor.Prelude.{nat_eq, ℤ, ok, ℕ, ◌≡◌, Option, none, some}
use mesh_supervisor.Map.{Map, lookup, insert}
use mesh_supervisor.Proto.{Handle, Spec}
use mesh_supervisor.Process.State.{Launched, Manager}
use mesh_supervisor.Process.Launch.{spawn, next_id}
use mesh_supervisor.Process.Launch.Spawn.{HasRoom}
use mesh_supervisor.Process.Table.{forget}
use mesh_supervisor.Process.Signals.{stop, kill_all_first}
use mesh_supervisor.Process.Supervise.{
  Task, watching, reaped, sleeping, launching, new_task, reap, decide, wake, relaunch,
}
use mesh_supervisor.Store.Database.{Disk}

pub record World (d : Disk) : Type 0 where
  pub manager : Manager d
  pub tasks : Map Handle Task

abbrev pub with_task : {d : Disk} → World d → Manager d → Handle → Task → World d
with_task w m id t = record { manager = m; tasks = insert id t w.tasks }

-- A step of a task stands at its phase; requests may come at any time. `HasRoom`: fewer than 2^64
-- spawns.
pub data Step (d : Disk) (w : World d) : World d → Type 0 where
  spawned :
      (spec : Spec) (l : Launched)
      → HasRoom w.manager
      → Step d w
          (with_task w (spawn d w.manager spec (some l)).0 (next_id d w.manager) (new_task spec))
  spawn_failed :
      (spec : Spec)
      → HasRoom w.manager
      → Step d w (record w { manager = (spawn d w.manager spec none).0 })
  stopped :
      (id : Handle) (m' : Manager d) (pid : Option ℕ)
      → stop d w.manager id ≡ ok (m', pid)
      → Step d w (record w { manager = m' })
  forgotten :
      (id : Handle) (m' : Manager d)
      → forget d w.manager id ≡ ok m'
      → Step d w (record w { manager = m' })
  shut_down : Step d w (record w { manager = (kill_all_first d w.manager).0 })
  reaps :
      (id : Handle) (t : Task) (code : Option ℤ) (elapsed : ℕ)
      → lookup id w.tasks ≡ some t
      → t.phase ≡ watching
      → Step d w
          (with_task w (reap d w.manager id code).0 id (record t { phase = reaped code elapsed }))
  decides :
      (id : Handle) (t : Task) (code : Option ℤ) (elapsed : ℕ)
      → lookup id w.tasks ≡ some t
      → t.phase ≡ reaped code elapsed
      → Step d w (with_task w w.manager id (decide d w.manager id t code elapsed))
  wakes :
      (id : Handle) (t : Task) (delay : ℕ)
      → lookup id w.tasks ≡ some t
      → t.phase ≡ sleeping delay
      → Step d w (with_task w w.manager id (wake d w.manager id t))
  relaunches :
      (id : Handle) (t : Task) (outcome : Option Launched)
      → lookup id w.tasks ≡ some t
      → t.phase ≡ launching
      → Step d w (
          with_task w
            (relaunch d w.manager id t outcome).0
            id
            (relaunch d w.manager id t outcome).1)

pub data Reach (d : Disk) (w : World d) : World d → Type 0 where
  here : Reach d w w
  next : {v u : World d} → Reach d w v → Step d v u → Reach d w u
