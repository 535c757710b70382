-- ===== src/Process/Supervise/Disarmed.antt =====
-- A `stop` or `forget` of src/process.rs is final once it comes before the last look at `armed`.
use mathlib.Core.Option
use mesh_supervisor.Prelude.{beq_refl, nat_eq, ok, ℕ, ◌≤◌, ◌≡◌, refl, Option, none, some}
use mesh_supervisor.Process.Supervise.Edits.{Reach-gone}
use mesh_supervisor.Process.Supervise.Down.{Reach-IsDown, IsDropped, NotLaunching}
use mesh_supervisor.Map.{lookup}
use mesh_supervisor.Map.Laws.{lookup-remove_self, lookup-modify}
use mesh_supervisor.Proto.{Handle}
use mesh_supervisor.Process.State.{ProcEntry, Manager}
use mesh_supervisor.Process.Table.{forget}
use mesh_supervisor.Process.Table.Forget.{forget-parts}
use mesh_supervisor.Process.Signals.{stop, disarm}
use mesh_supervisor.Process.Signals.Targets.{stop-parts}
use mesh_supervisor.Process.Supervise.World.{World, Reach}
use mesh_supervisor.Store.Database.{Disk}

module _ (d : Disk) where
  -- After a `stop` of a handle that was given out, whose task is anywhere but between its last look
  -- at `armed` and the relaunch, no order of later steps brings that task to a relaunch again, and
  -- the entry stays disarmed or is forgotten.
  pub stop_is_final :
      (w u : World d) (h : Handle) (m' : Manager d) (pid : Option ℕ)
      → stop d w.manager h ≡ ok (m', pid)
      → NotLaunching (lookup h w.tasks)
      → h ≤ w.manager.next
      → Reach d (record w { manager = m' }) u
      → NotLaunching (lookup h u.tasks) × IsDropped (lookup h u.manager.procs)
  stop_is_final w u h m' pid e idle given r =
      let (shape, count, _) = stop-parts d w.manager m' h pid e in
      let v = Reach-IsDown d h r (record {
        dropped =
            rw (shape, lookup-modify h h disarm w.manager.procs, beq_refl h)
              (all_dropped (lookup h w.manager.procs));
        idle = idle;
        given = rw count given;
      }) in
      (v.idle, v.dropped)
    where
      all_dropped : (p : Option ProcEntry) → IsDropped (Option.map disarm p)
      all_dropped none = tt
      all_dropped (some x) = refl

  -- After a `forget` of a handle that was given out, whose task is anywhere but between its last
  -- look at `armed` and the relaunch, no order of later steps brings that task to a relaunch again,
  -- and the handle never has an entry again.
  pub forget_is_final :
      (w u : World d) (h : Handle) (m' : Manager d)
      → forget d w.manager h ≡ ok m'
      → NotLaunching (lookup h w.tasks)
      → h ≤ w.manager.next
      → Reach d (record w { manager = m' }) u
      → NotLaunching (lookup h u.tasks) × (lookup h u.manager.procs ≡ none)
  forget_is_final w u h m' e idle given r =
      let (shape, count, _) = forget-parts d w.manager m' h e in
      let gone : lookup h m'.procs ≡ none = rw (shape) (lookup-remove_self h w.manager.procs) in
      let still : h ≤ m'.next = rw (count) given in
      let v = Reach-IsDown d h r (record { dropped = rw (gone) tt; idle = idle; given = still }) in
      (v.idle, (Reach-gone d h r gone still).0)
