-- ===== src/Process/Supervise/Invariant.antt =====
-- The table of src/process.rs against its supervise tasks, over all orders of steps.
use mathlib.Core.Option
use mesh_supervisor.Prelude.{
  nat_beq, if◌then◌else◌, nat_eq, ok, ℕ, ◌≡◌, refl, sym, subst, ◌∙◌, Bool, true, false, Option,
  none, some, arith,
}
use mesh_supervisor.Process.Signals.Targets.{stop-parts}
use mesh_supervisor.Process.Restart.{Verdict}
use mesh_supervisor.Map.{lookup, modify}
use mesh_supervisor.Map.Laws.{lookup-eq_key, lookup-insert, lookup-modify, lookup-remove}
use mesh_supervisor.Proto.{Handle, Spec, is_running, exited}
use mesh_supervisor.Process.State.{ProcEntry, Launched, Manager}
use mesh_supervisor.Process.Launch.{spawn, next_id, new_entry}
use mesh_supervisor.Process.Table.{forget}
use mesh_supervisor.Process.Table.Forget.{forget-parts}
use mesh_supervisor.Process.Restart.{Verdict, finish, retry}
use mesh_supervisor.Process.Signals.{stop, kill_all_first, disarm}
use mesh_supervisor.Process.Supervise.{
  finished, Task, Phase, watching, reaped, sleeping, launching, new_task, reap, decide, wake,
  relaunch, with_status, relaunched, follow,
}
use mesh_supervisor.Process.Supervise.World.{
  World, with_task, Step, spawned, spawn_failed, stopped, forgotten, shut_down, reaps, decides,
  wakes, relaunches, Reach, here, next,
}
use mesh_supervisor.Store.Database.{Disk}

abbrev pub is_watching : Phase → Bool
is_watching watching = true
is_watching (reaped code elapsed) = false
is_watching (sleeping delay) = false
is_watching launching = false
is_watching finished = false

-- An entry says that its process runs exactly when the handle's task is waiting for a child.
abbrev pub Fits : Option ProcEntry → Option Task → Type 0
Fits none t = Unit {0}
Fits (some e) none = is_running e.status ≡ false
Fits (some e) (some t) = is_running e.status ≡ is_watching t.phase

Fits-if :
    (b : Bool) (p q : Option ProcEntry) (t u : Option Task)
    → (b ≡ true → Fits q u)
    → Fits p t
    → Fits (if b then q else p) (if b then u else t)
Fits-if true p q t u hit miss = hit refl
Fits-if false p q t u hit miss = miss

-- An edit of the entry alone that keeps its status.
Fits-edit :
    (b : Bool) (f : ProcEntry → ProcEntry) (p : Option ProcEntry) (t : Option Task)
    → ((e : ProcEntry) → (f e).status ≡ e.status)
    → Fits p t
    → Fits (if b then Option.map f p else p) t
Fits-edit false f p t same h = h
Fits-edit true f none t same h = tt
Fits-edit true f (some e) none same h = rw (same e) h
Fits-edit true f (some e) (some t) same h = rw (same e) h

Fits-forget :
    (b : Bool) (p : Option ProcEntry) (t : Option Task) → Fits p t → Fits (if b then none else p) t
Fits-forget true p t h = tt
Fits-forget false p t h = h

-- A task that did not watch a child and still does not.
Fits-idle :
    (p : Option ProcEntry) (t u : Task)
    → is_watching t.phase ≡ false
    → is_watching u.phase ≡ false
    → Fits p (some t)
    → Fits p (some u)
Fits-idle none t u h k fits = tt
Fits-idle (some e) t u h k fits = fits ∙ h ∙ sym k

Fits-set :
    (f : ProcEntry → ProcEntry) (p : Option ProcEntry) (t : Task)
    → ((e : ProcEntry) → is_running (f e).status ≡ is_watching t.phase)
    → Fits (Option.map f p) (some t)
Fits-set f none t h = tt
Fits-set f (some e) t h = h e

Fits-idle_task :
    (b : Bool) (p : Option ProcEntry) (o : Option Task) (t u : Task)
    → (b ≡ true → o ≡ some t)
    → is_watching t.phase ≡ false
    → is_watching u.phase ≡ false
    → Fits p o
    → Fits p (if b then some u else o)
Fits-idle_task true p o t u at h k fits = Fits-idle p t u h k (subst (Fits p) (at refl) fits)
Fits-idle_task false p o t u at h k fits = fits

pub record IsSound {d : Disk} (w : World d) : Type 0 where
  pub fits : (h : Handle) → Fits (lookup h w.manager.procs) (lookup h w.tasks)

follow-idle : (t : Task) (v : Verdict) → is_watching (follow t v).phase ≡ false
follow-idle t finish = refl
follow-idle t (retry attempt delay) = refl

module _ (d : Disk) where
  wake-idle : (m : Manager d) (id : Handle) (t : Task) → is_watching (wake d m id t).phase ≡ false
  unfolding wake
  wake-idle m id t = ground arith

  -- The task of one handle moves on without a child.
  idle-IsSound :
      (w : World d) (id : Handle) (t u : Task)
      → lookup id w.tasks ≡ some t
      → is_watching t.phase ≡ false
      → is_watching u.phase ≡ false
      → IsSound w
      → IsSound (with_task w w.manager id u)
  idle-IsSound w id t u at before after v = record {
    fits = λ h. rw (lookup-insert id h u w.tasks) (
        Fits-idle_task (nat_beq id h) (lookup h w.manager.procs) (lookup h w.tasks) t u
          (lookup-eq_key id h (some t) w.tasks at) before after (v.fits h));
  }

  -- An entry and its task are set together.
  set-IsSound :
      (w : World d) (m : Manager d) (id : Handle) (f : ProcEntry → ProcEntry) (u : Task)
      → m.procs ≡ modify id f w.manager.procs
      → ((e : ProcEntry) → is_running (f e).status ≡ is_watching u.phase)
      → IsSound w
      → IsSound (with_task w m id u)
  set-IsSound w m id f u shape both v = record {
    fits = λ h.
        rw (shape, lookup-modify id h f w.manager.procs, lookup-insert id h u w.tasks)
          (Fits-if (nat_beq id h) (lookup h w.manager.procs)
            (Option.map f (lookup h w.manager.procs)) (lookup h w.tasks) (some u)
            (λ _. Fits-set f (lookup h w.manager.procs) u both) (v.fits h));
  }

  spawn-IsSound :
      (w : World d) (spec : Spec) (l : Launched)
      → IsSound w
      → IsSound
          (with_task w (spawn d w.manager spec (some l)).0 (next_id d w.manager) (new_task spec))
  unfolding spawn
  spawn-IsSound w spec l v = record {
    fits = λ h.
        let id : Handle = next_id d w.manager in
        rw
          (
            lookup-insert id h (new_entry d l) w.manager.procs,
            lookup-insert id h (new_task spec) w.tasks,
          )
          (Fits-if (nat_beq id h) (lookup h w.manager.procs) (some (new_entry d l))
            (lookup h w.tasks) (some (new_task spec)) (λ _. refl) (v.fits h));
  }

  stop-IsSound :
      (w : World d) (id : Handle) (m' : Manager d) (pid : Option ℕ)
      → stop d w.manager id ≡ ok (m', pid)
      → IsSound w
      → IsSound (record w { manager = m' })
  stop-IsSound w id m' pid e v = record {
    fits = λ h.
        rw ((stop-parts d w.manager m' id pid e).0, lookup-modify id h disarm w.manager.procs)
          (Fits-edit (nat_beq id h) disarm (lookup h w.manager.procs) (lookup h w.tasks) (λ x. refl)
            (v.fits h));
  }

  forget-IsSound :
      (w : World d) (id : Handle) (m' : Manager d)
      → forget d w.manager id ≡ ok m'
      → IsSound w
      → IsSound (record w { manager = m' })
  forget-IsSound w id m' e v = record {
    fits = λ h.
        rw ((forget-parts d w.manager m' id e).0, lookup-remove id h w.manager.procs)
          (Fits-forget (nat_beq id h) (lookup h w.manager.procs) (lookup h w.tasks) (v.fits h));
  }

  relaunch-IsSound :
      (w : World d) (id : Handle) (t : Task) (outcome : Option Launched)
      → lookup id w.tasks ≡ some t
      → t.phase ≡ launching
      → IsSound w
      → IsSound (
          with_task w
            (relaunch d w.manager id t outcome).0
            id
            (relaunch d w.manager id t outcome).1)
  unfolding relaunch
  relaunch-IsSound w id t none at phase v = idle-IsSound w id t _ at (rw phase) refl v
  relaunch-IsSound w id t (some l) at phase v =
      set-IsSound w _ id (relaunched l) _ refl (λ e. refl) v

  -- Whatever the order of spawns, stops, forgets, exits, backoffs, relaunches and a shutdown, a
  -- step keeps table and tasks in agreement.
  Step-IsSound : {w u : World d} → Step d w u → IsSound w → IsSound u
  unfolding kill_all_first reap decide spawn
  Step-IsSound {w} (spawned spec l room) v = spawn-IsSound w spec l v
  Step-IsSound {w} (spawn_failed spec room) v = record { fits = v.fits }
  Step-IsSound {w} (stopped id m' pid e) v = stop-IsSound w id m' pid e v
  Step-IsSound {w} (forgotten id m' e) v = forget-IsSound w id m' e v
  Step-IsSound {w} shut_down v = record { fits = v.fits }
  Step-IsSound {w} (reaps id t code elapsed at phase) v =
      set-IsSound w _ id (with_status (exited code)) _ refl (λ e. refl) v
  Step-IsSound {w} (decides id t code elapsed at phase) v =
      idle-IsSound w id t _ at (rw phase) (follow-idle t _) v
  Step-IsSound {w} (wakes id t delay at phase) v =
      idle-IsSound w id t _ at (rw phase) (wake-idle w.manager id t) v
  Step-IsSound {w} (relaunches id t outcome at phase) v = relaunch-IsSound w id t outcome at phase v

  -- In every state that a sound one leads to, by whatever order of spawns, stops, forgets, exits,
  -- backoffs, relaunches and a shutdown: an entry says that its process runs if and only if the
  -- supervise task of its handle is waiting for a child.
  pub Reach-IsSound : {w u : World d} → Reach d w u → IsSound w → IsSound u
  Reach-IsSound here v = v
  Reach-IsSound (next r s) v = Step-IsSound s (Reach-IsSound r v)
