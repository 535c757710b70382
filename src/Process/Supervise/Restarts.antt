-- ===== src/Process/Supervise/Restarts.antt =====
-- That a crash is followed by a relaunch: the steps of one supervise task of src/process.rs, from
-- the exit of its child to the next child.
use mesh_supervisor.Prelude.{
  beq_refl, nat_eq, ℤ, ℕ, ◌+◌, ◌%◌, ◌^◌, ◌<◌, ◌≡◌, refl, ap, subst, ◌∙◌, true, false, Option, some,
  arith,
}
use mesh_supervisor.Process.Supervise.Races.{wake-armed}
use mesh_supervisor.Map.Laws.{lookup-insert_self, lookup-modify}
use mesh_supervisor.Map.{lookup}
use mesh_supervisor.Process.State.{Launched, ProcEntry, Manager}
use mesh_supervisor.Process.Restart.{
  cap_hit, should_restart, backoff, retry_or_cap, after_exit, next_attempt,
}
use mesh_supervisor.Process.Supervise.{
  watching, relaunched, launching, relaunch, with_status, reaped, sleeping, Task, reap, decide,
}
use mesh_supervisor.Store.Database.{Disk}
use mesh_supervisor.Proto.{Handle, exited, running}
use mesh_supervisor.Process.Supervise.World.{
  Reach, Step, with_task, World, here, next, reaps, decides, wakes, relaunches,
}

module _ (d : Disk) where
  decide-sleeping :
      (m : Manager d) (id : Handle) (t : Task) (e : ProcEntry) (code : Option ℤ) (elapsed : ℕ)
      → lookup id m.procs ≡ some e
      → e.armed ≡ true
      → m.shutdown ≡ false
      → should_restart t.spec.policy code ≡ true
      → cap_hit t.spec.max_retries (next_attempt t.attempt elapsed) ≡ false
      → decide d m id t code elapsed ≡ record t {
        attempt = next_attempt t.attempt elapsed;
        phase = sleeping (backoff (next_attempt t.attempt elapsed));
      }
  unfolding decide after_exit retry_or_cap
  decide-sleeping m id t e code elapsed at armed on wants left =
      rw (at, armed, on, wants, left) refl

  -- The states between the exit and the relaunch.
  abbrev sleeper : Task → ℕ → Task
  sleeper t elapsed = record t {
    attempt = next_attempt t.attempt elapsed;
    phase = sleeping (backoff (next_attempt t.attempt elapsed));
  }

  abbrev reaped_world : World d → Handle → Task → Option ℤ → ℕ → World d
  reaped_world w id t code elapsed =
      with_task w (reap d w.manager id code).0 id (record t { phase = reaped code elapsed })

  abbrev sleeping_world : World d → Handle → Task → Option ℤ → ℕ → World d
  sleeping_world w id t code elapsed =
      with_task (reaped_world w id t code elapsed) (reap d w.manager id code).0 id
        (sleeper t elapsed)

  reap-entry :
      (m : Manager d) (id : Handle) (e : ProcEntry) (code : Option ℤ)
      → lookup id m.procs ≡ some e
      → (lookup id (reap d m id code).0.procs ≡ some (with_status (exited code) e))
        × ((reap d m id code).0.shutdown ≡ m.shutdown)
  unfolding reap
  reap-entry m id e code at =
      (rw (lookup-modify id id (with_status (exited code)) m.procs, beq_refl id, at) refl, refl)

  abbrev launching_world : World d → Handle → Task → Option ℤ → ℕ → World d
  launching_world w id t code elapsed =
      with_task (sleeping_world w id t code elapsed) (reap d w.manager id code).0 id
        (record (sleeper t elapsed) { phase = launching })

  abbrev restarted_world : World d → Handle → Task → Option ℤ → ℕ → Launched → World d
  restarted_world w id t code elapsed l =
      let m = (reap d w.manager id code).0 in
      let t' = record (sleeper t elapsed) { phase = launching } in
      with_task (launching_world w id t code elapsed) (relaunch d m id t' (some l)).0 id
        (relaunch d m id t' (some l)).1

  to_sleep :
      (w : World d) (id : Handle) (t : Task) (e : ProcEntry) (code : Option ℤ) (elapsed : ℕ)
      → lookup id w.manager.procs ≡ some e
      → e.armed ≡ true
      → w.manager.shutdown ≡ false
      → should_restart t.spec.policy code ≡ true
      → cap_hit t.spec.max_retries (next_attempt t.attempt elapsed) ≡ false
      → Step d (reaped_world w id t code elapsed) (sleeping_world w id t code elapsed)
  to_sleep w id t e code elapsed at armed on wants left =
      let m = (reap d w.manager id code).0 in
      let t' : Task = record t { phase = reaped code elapsed } in
      let (found, same) = reap-entry w.manager id e code at in
      subst
        (λ x.
          Step d (reaped_world w id t code elapsed)
            (with_task (reaped_world w id t code elapsed) m id x))
        (decide-sleeping m id t' (with_status (exited code) e) code elapsed found armed (same ∙ on)
          wants left)
        (decides id t' code elapsed (lookup-insert_self id t' w.tasks) refl)

  to_launch :
      (w : World d) (id : Handle) (t : Task) (e : ProcEntry) (code : Option ℤ) (elapsed : ℕ)
      → lookup id w.manager.procs ≡ some e
      → e.armed ≡ true
      → w.manager.shutdown ≡ false
      → Step d (sleeping_world w id t code elapsed) (launching_world w id t code elapsed)
  to_launch w id t e code elapsed at armed on =
      let m = (reap d w.manager id code).0 in
      let s = sleeping_world w id t code elapsed in
      let (found, same) = reap-entry w.manager id e code at in
      subst (λ x. Step d s (with_task s m id x))
        (wake-armed d m id (sleeper t elapsed) (with_status (exited code) e) found armed
          (same ∙ on))
        (wakes id (sleeper t elapsed) (backoff (next_attempt t.attempt elapsed))
          (lookup-insert_self id (sleeper t elapsed) _) refl)

  relaunch-entry :
      (m : Manager d) (id : Handle) (t : Task) (e : ProcEntry) (l : Launched)
      → lookup id m.procs ≡ some e
      → lookup id (relaunch d m id t (some l)).0.procs ≡ some (relaunched l e)
  unfolding relaunch
  relaunch-entry m id t e l at =
      rw (lookup-modify id id (relaunched l) m.procs, beq_refl id, at) refl

  relaunched-fields :
      (l : Launched) (e : ProcEntry) (code : Option ℤ)
      → e.armed ≡ true
      → e.restarts + 1 < 2 ^ 32
      → relaunched l (with_status (exited code) e) ≡ record {
        pid = l.pid;
        status = running;
        stdin = l.stdin;
        stdout = l.stdout;
        restarts = e.restarts + 1;
        armed = true;
      }
  relaunched-fields l e code armed room =
      let whole : (e.restarts + 1) % 2 ^ 32 ≡ e.restarts + 1 = omega arith in rw (whole, armed) refl

  -- An armed process whose exit its policy restarts, and whose cap is not reached, comes back: from
  -- its exit, while the supervisor runs, the steps of its own task lead to a state in which the
  -- entry has the new child, running and still armed, one restart more, and the task waits for it.
  -- The restarts so far are below the largest u32.
  pub crash_restarts :
      (w : World d) (id : Handle) (t : Task) (e : ProcEntry) (l : Launched) (code : Option ℤ)
      (elapsed : ℕ)
      → lookup id w.tasks ≡ some t
      → t.phase ≡ watching
      → lookup id w.manager.procs ≡ some e
      → e.armed ≡ true
      → w.manager.shutdown ≡ false
      → should_restart t.spec.policy code ≡ true
      → cap_hit t.spec.max_retries (next_attempt t.attempt elapsed) ≡ false
      → e.restarts + 1 < 2 ^ 32
      → (u : World d) × Reach d w u
        × (lookup id u.manager.procs
            ≡ some (record {
              pid = l.pid;
              status = running;
              stdin = l.stdin;
              stdout = l.stdout;
              restarts = e.restarts + 1;
              armed = true;
            }))
        × (lookup id u.tasks
            ≡ some (record t { attempt = next_attempt t.attempt elapsed; phase = watching }))
  unfolding relaunch
  crash_restarts w id t e l code elapsed at phase there armed on wants left room =
      let m = (reap d w.manager id code).0 in
      let t' : Task = record (sleeper t elapsed) { phase = launching } in
      (
        restarted_world w id t code elapsed l,
        next
            (next
              (next (next here (reaps id t code elapsed at phase))
                (to_sleep w id t e code elapsed there armed on wants left))
              (to_launch w id t e code elapsed there armed on))
            (relaunches id t' (some l) (lookup-insert_self id t' _) refl),
        relaunch-entry m id t' (with_status (exited code) e) l
              (reap-entry w.manager id e code there).0
            ∙ ap some (relaunched-fields l e code armed room),
        lookup-insert_self id _ _,
      )
