-- ===== src/Process/Supervise/Down.antt =====
-- What a task of src/process.rs whose process was dropped can still do: the invariant behind
-- Disarmed.antt.
use mathlib.Core.Option
use mesh_supervisor.Prelude.{
  nat_beq, if◌then◌else◌, nat_beq_iff, nat_eq, ◌≤◌, ◌≡◌, refl, sym, subst, ◌≢◌, Bool, true, false,
  Option, none, some, arith,
}
use mesh_supervisor.Map.{lookup, modify}
use mesh_supervisor.Map.Laws.{
  lookup-insert, lookup-modify, lookup-remove, lookup-insert_ne, lookup-eq_key,
}
use mesh_supervisor.Proto.{Handle, Spec, exited}
use mesh_supervisor.Process.State.{ProcEntry, Launched, Manager}
use mesh_supervisor.Process.Launch.{spawn, next_id, new_entry}
use mesh_supervisor.Process.Launch.Spawn.{HasRoom}
use mesh_supervisor.Process.Table.Forget.{forget-parts}
use mesh_supervisor.Process.Restart.{Verdict, finish, retry}
use mesh_supervisor.Process.Signals.{kill_all_first, disarm}
use mesh_supervisor.Process.Signals.Targets.{stop-parts}
use mesh_supervisor.Process.Supervise.{
  Task, Phase, watching, reaped, sleeping, launching, finished, new_task, reap, decide, wake,
  relaunch, with_status, relaunched, follow, is_armed,
}
use mesh_supervisor.Process.Supervise.World.{
  World, with_task, Step, spawned, spawn_failed, stopped, forgotten, shut_down, reaps, decides,
  wakes, relaunches, Reach, here, next,
}
use mesh_supervisor.Store.Database.{Disk}

abbrev pub is_launching : Phase → Bool
is_launching watching = false
is_launching (reaped code elapsed) = false
is_launching (sleeping delay) = false
is_launching launching = true
is_launching finished = false

abbrev pub IsDropped : Option ProcEntry → Type 0
IsDropped none = Unit {0}
IsDropped (some e) = e.armed ≡ false

abbrev pub NotLaunching : Option Task → Type 0
NotLaunching none = Unit {0}
NotLaunching (some t) = is_launching t.phase ≡ false

-- A handle that was given out, whose entry is gone or disarmed, and whose task is not between its
-- last look at `armed` and the relaunch.
pub record IsDown {d : Disk} (h : Handle) (w : World d) : Type 0 where
  pub dropped : IsDropped (lookup h w.manager.procs)
  pub idle : NotLaunching (lookup h w.tasks)
  pub given : h ≤ w.manager.next

IsDropped-edit :
    (b : Bool) (f : ProcEntry → ProcEntry) (p : Option ProcEntry)
    → ((e : ProcEntry) → e.armed ≡ false → (f e).armed ≡ false)
    → IsDropped p
    → IsDropped (if b then Option.map f p else p)
IsDropped-edit false f p keep h = h
IsDropped-edit true f none keep h = tt
IsDropped-edit true f (some e) keep h = keep e h

IsDropped-remove :
    (b : Bool) (p : Option ProcEntry) → IsDropped p → IsDropped (if b then none else p)
IsDropped-remove true p h = tt
IsDropped-remove false p h = h

NotLaunching-set :
    (b : Bool) (o : Option Task) (t : Task)
    → (b ≡ true → is_launching t.phase ≡ false)
    → NotLaunching o
    → NotLaunching (if b then some t else o)
NotLaunching-set true o t new old = new refl
NotLaunching-set false o t new old = old

not_armed : (p : Option ProcEntry) → IsDropped p → is_armed p ≡ false
not_armed none h = refl
not_armed (some e) h = h

follow-NotLaunching : (t : Task) (v : Verdict) → is_launching (follow t v).phase ≡ false
follow-NotLaunching t finish = refl
follow-NotLaunching t (retry attempt delay) = refl

module _ (d : Disk) where
  wake-NotLaunching :
      (m : Manager d) (h : Handle) (t : Task)
      → IsDropped (lookup h m.procs)
      → is_launching (wake d m h t).phase ≡ false
  unfolding wake
  wake-NotLaunching m h t down = rw (not_armed (lookup h m.procs) down) (ground arith)

  -- The table is edited in place, the counter stays, and one task moves.
  edit-IsDown :
      (w : World d) (h id : Handle) (m : Manager d) (f : ProcEntry → ProcEntry) (t : Task)
      → m.procs ≡ modify id f w.manager.procs
      → m.next ≡ w.manager.next
      → ((e : ProcEntry) → e.armed ≡ false → (f e).armed ≡ false)
      → (nat_beq id h ≡ true → is_launching t.phase ≡ false)
      → IsDown h w
      → IsDown h (with_task w m id t)
  edit-IsDown w h id m f t shape count keep idle v = record {
    dropped =
        rw (shape, lookup-modify id h f w.manager.procs)
          (IsDropped-edit (nat_beq id h) f (lookup h w.manager.procs) keep v.dropped);
    idle =
        rw (lookup-insert id h t w.tasks)
          (NotLaunching-set (nat_beq id h) (lookup h w.tasks) t idle v.idle);
    given = rw count v.given;
  }

  -- Only a task moves.
  move-IsDown :
      (w : World d) (h id : Handle) (t : Task)
      → (nat_beq id h ≡ true → is_launching t.phase ≡ false)
      → IsDown h w
      → IsDown h (with_task w w.manager id t)
  move-IsDown w h id t idle v = record {
    dropped = v.dropped;
    idle =
        rw (lookup-insert id h t w.tasks)
          (NotLaunching-set (nat_beq id h) (lookup h w.tasks) t idle v.idle);
    given = v.given;
  }

  spawn-IsDown :
      (w : World d) (h : Handle) (spec : Spec) (l : Launched)
      → HasRoom w.manager
      → IsDown h w
      → IsDown h
          (with_task w (spawn d w.manager spec (some l)).0 (next_id d w.manager) (new_task spec))
  unfolding spawn
  spawn-IsDown w h spec l room v =
      let id : Handle = next_id d w.manager in
      let fresh : id ≢ h = λ e. omega (arith, e, v.given) in
      record {
        dropped = rw (lookup-insert_ne id h (new_entry d l) w.manager.procs fresh) v.dropped;
        idle = rw (lookup-insert_ne id h (new_task spec) w.tasks fresh) v.idle;
        given = omega (arith, v.given);
      }

  -- A task at another phase than `launching` is not at `launching`: such a step is another task's.
  other_task :
      (w : World d) (h id : Handle) (t : Task)
      → lookup id w.tasks ≡ some t
      → t.phase ≡ launching
      → IsDown h w
      → nat_beq id h ≡ true
      → ⊥
  other_task w h id t at phase v same =
      let idle = subst NotLaunching (lookup-eq_key id h (some t) w.tasks at same) v.idle in cc

  relaunch-IsDown :
      (w : World d) (h id : Handle) (t : Task) (outcome : Option Launched)
      → lookup id w.tasks ≡ some t
      → t.phase ≡ launching
      → IsDown h w
      → IsDown h (
          with_task w
            (relaunch d w.manager id t outcome).0
            id
            (relaunch d w.manager id t outcome).1)
  unfolding relaunch
  relaunch-IsDown w h id t none at phase v =
      move-IsDown w h id _ (λ same. absurd (other_task w h id t at phase v same)) v
  relaunch-IsDown w h id t (some l) at phase v =
      edit-IsDown w h id _ (relaunched l) _ refl refl (λ e k. k)
        (λ same. absurd (other_task w h id t at phase v same)) v

  wake_here :
      (w : World d) (h id : Handle) (t : Task)
      → IsDown h w
      → nat_beq id h ≡ true
      → is_launching (wake d w.manager id t).phase ≡ false
  wake_here w h id t v same = wake-NotLaunching w.manager id t (
      subst (λ k. IsDropped (lookup k w.manager.procs)) (sym ((nat_beq_iff id h).0 same)) v.dropped)

  Step-IsDown : {w u : World d} → (h : Handle) → Step d w u → IsDown h w → IsDown h u
  unfolding kill_all_first reap decide spawn
  Step-IsDown {w} h (spawned spec l room) v = spawn-IsDown w h spec l room v
  Step-IsDown {w} h (spawn_failed spec room) v = record {
    dropped = v.dropped;
    idle = v.idle;
    given = omega (arith, v.given);
  }
  Step-IsDown {w} h (stopped id m' pid e) v =
      let (shape, count, _) = stop-parts d w.manager m' id pid e in
      record {
        dropped =
            rw (shape, lookup-modify id h disarm w.manager.procs)
              (IsDropped-edit (nat_beq id h) disarm (lookup h w.manager.procs) (λ x k. refl)
                v.dropped);
        idle = v.idle;
        given = rw count v.given;
      }
  Step-IsDown {w} h (forgotten id m' e) v =
      let (shape, count, _) = forget-parts d w.manager m' id e in
      record {
        dropped =
            rw (shape, lookup-remove id h w.manager.procs)
              (IsDropped-remove (nat_beq id h) (lookup h w.manager.procs) v.dropped);
        idle = v.idle;
        given = rw count v.given;
      }
  Step-IsDown {w} h shut_down v = record { dropped = v.dropped; idle = v.idle; given = v.given }
  Step-IsDown {w} h (reaps id t code elapsed at phase) v =
      edit-IsDown w h id _ (with_status (exited code)) _ refl refl (λ e k. k) (λ _. refl) v
  Step-IsDown {w} h (decides id t code elapsed at phase) v =
      move-IsDown w h id _ (λ _. follow-NotLaunching t _) v
  Step-IsDown {w} h (wakes id t delay at phase) v = move-IsDown w h id _ (wake_here w h id t v) v
  Step-IsDown {w} h (relaunches id t outcome at phase) v =
      relaunch-IsDown w h id t outcome at phase v

  pub Reach-IsDown : {w u : World d} → (h : Handle) → Reach d w u → IsDown h w → IsDown h u
  Reach-IsDown h here v = v
  Reach-IsDown h (next r s) v = Step-IsDown h s (Reach-IsDown h r v)
