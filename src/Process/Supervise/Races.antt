-- ===== src/Process/Supervise/Races.antt =====
-- The window of `supervise` in src/process.rs between its last look at `armed` and the relaunch: a
-- `forget` or `stop` there is overtaken.
use mathlib.Core.Option
use mesh_supervisor.Prelude.{
  beq_refl, nat_eq, ok, ℕ, ◌≡◌, refl, subst, true, false, none, some, arith,
}
use mesh_supervisor.Map.{lookup, insert, modify}
use mesh_supervisor.Map.Laws.{lookup-modify, lookup-insert_self, lookup-remove_self}
use mesh_supervisor.Proto.{Handle, is_running}
use mesh_supervisor.Process.State.{ProcEntry, Launched, Manager}
use mesh_supervisor.Process.Table.{forget}
use mesh_supervisor.Process.Table.Forget.{
  Forgets, unknown, refused, dropped, forget-Forgets, Forgets, forget-parts,
}
use mesh_supervisor.Process.Signals.{stop, disarm}
use mesh_supervisor.Process.Supervise.{
  Task, watching, sleeping, launching, wake, relaunch, relaunched,
}
use mesh_supervisor.Process.Supervise.World.{
  World, with_task, Step, stopped, forgotten, wakes, relaunches, Reach, here, next,
}
use mesh_supervisor.Process.Supervise.Invariant.{is_watching, IsSound, Fits}
use mesh_supervisor.Store.Database.{Disk}

module _ (d : Disk) where
  pub wake-armed :
      (m : Manager d) (id : Handle) (t : Task) (e : ProcEntry)
      → lookup id m.procs ≡ some e
      → e.armed ≡ true
      → m.shutdown ≡ false
      → wake d m id t ≡ record t { phase = launching }
  unfolding wake
  wake-armed m id t e at armed on = ground (arith, at)

  sleeping_entry :
      (w : World d) (id : Handle) (t : Task) (delay : ℕ) (e : ProcEntry)
      → IsSound w
      → lookup id w.tasks ≡ some t
      → t.phase ≡ sleeping delay
      → lookup id w.manager.procs ≡ some e
      → is_running e.status ≡ false
  sleeping_entry w id t delay e v at phase there =
      subst (λ p. is_running e.status ≡ is_watching p) phase
        (subst (Fits (some e)) at (subst (λ o. Fits o (lookup id w.tasks)) there (v.fits id)))

  forget-idle :
      (m : Manager d) (id : Handle) (e : ProcEntry)
      → lookup id m.procs ≡ some e
      → is_running e.status ≡ false
      → (m' : Manager d) × (forget d m id ≡ ok m')
  forget-idle m id e at gone = by_outcome (forget-Forgets d m id)
    where
      runs_not : (x : ProcEntry) → lookup id m.procs ≡ some x → is_running x.status ≡ true → ⊥
      runs_not x there runs = ground (arith, at, there)

      by_outcome : Forgets m id (forget d m id) → (m' : Manager d) × (forget d m id ≡ ok m')
      by_outcome (unknown missing r) = absurd (cc (at, missing))
      by_outcome (refused x there runs r) = absurd (runs_not x there runs)
      by_outcome (dropped x m' there idle r rest count) = (m', r)

  -- The last look at `armed` passes.
  abbrev ready : World d → Handle → Task → World d
  ready w id t = with_task w w.manager id (record t { phase = launching })

  ready-Step :
      (w : World d) (id : Handle) (t : Task) (delay : ℕ) (e : ProcEntry)
      → lookup id w.tasks ≡ some t
      → t.phase ≡ sleeping delay
      → lookup id w.manager.procs ≡ some e
      → e.armed ≡ true
      → w.manager.shutdown ≡ false
      → Step d w (ready w id t)
  ready-Step w id t delay e at phase there armed on =
      subst (λ x. Step d w (with_task w w.manager id x))
        (wake-armed w.manager id t e there armed on) (wakes id t delay at phase)

  -- A request edits the manager, and the relaunch follows.
  abbrev overtaken : World d → Handle → Task → Manager d → Launched → World d
  overtaken w id t m l =
      let t' : Task = record t { phase = launching } in
      with_task (record { manager = m; tasks = insert id t' w.tasks })
        (relaunch d m id t' (some l)).0 id (relaunch d m id t' (some l)).1

  overtaken-tasks :
      (w : World d) (id : Handle) (t : Task) (m : Manager d) (l : Launched)
      → lookup id (overtaken w id t m l).tasks ≡ some (record t { phase = watching })
  unfolding relaunch
  overtaken-tasks w id t m l = lookup-insert_self id _ _

  overtaken-procs :
      (w : World d) (id : Handle) (t : Task) (m : Manager d) (l : Launched)
      → lookup id (overtaken w id t m l).manager.procs
        ≡ Option.map (relaunched l) (lookup id m.procs)
  unfolding relaunch
  overtaken-procs w id t m l = rw (lookup-modify id id (relaunched l) m.procs, beq_refl id)

  -- From every sound state in which a task sleeps in its backoff, with an armed entry and no
  -- shutdown, steps lead to a state in which that task has a child that it waits for and the table
  -- has no entry for the handle.
  pub forget_race :
      (w : World d) (id : Handle) (t : Task) (delay : ℕ) (e : ProcEntry) (l : Launched)
      → IsSound w
      → lookup id w.tasks ≡ some t
      → t.phase ≡ sleeping delay
      → lookup id w.manager.procs ≡ some e
      → e.armed ≡ true
      → w.manager.shutdown ≡ false
      → (u : World d) × Reach d w u
        × (lookup id u.tasks ≡ some (record t { phase = watching }))
        × (lookup id u.manager.procs ≡ none)
  forget_race w id t delay e l v at phase there armed on =
      let idle = sleeping_entry w id t delay e v at phase there in
      let (m', done) = forget-idle w.manager id e there idle in
      let (shape, _, _) = forget-parts d w.manager m' id done in
      (
        overtaken w id t m' l,
        next
            (next (next here (ready-Step w id t delay e at phase there armed on))
              (forgotten id m' done))
            (relaunches id (record t { phase = launching }) (some l)
              (lookup-insert_self id _ w.tasks) refl),
        overtaken-tasks w id t m' l,
        rw (overtaken-procs w id t m' l, shape, lookup-remove_self id w.manager.procs),
      )

  stop-idle :
      (m : Manager d) (id : Handle) (e : ProcEntry)
      → lookup id m.procs ≡ some e
      → is_running e.status ≡ false
      → stop d m id ≡ ok (record m { procs = modify id disarm m.procs }, none)
  unfolding stop
  stop-idle m id e at idle = ground (arith, at, idle)

  -- From every sound state in which a task sleeps in its backoff, with an armed entry and no
  -- shutdown, a `stop` finds no running child and so asks for no termination; and steps with that
  -- `stop` among them lead to a state in which the entry says that a child runs, although it is
  -- disarmed.
  pub stop_race :
      (w : World d) (id : Handle) (t : Task) (delay : ℕ) (e : ProcEntry) (l : Launched)
      → IsSound w
      → lookup id w.tasks ≡ some t
      → t.phase ≡ sleeping delay
      → lookup id w.manager.procs ≡ some e
      → e.armed ≡ true
      → w.manager.shutdown ≡ false
      → (m' : Manager d) × (u : World d) × (stop d w.manager id ≡ ok (m', none))
        × Reach d w u
        × (lookup id u.manager.procs ≡ some (relaunched l (disarm e)))
  stop_race w id t delay e l v at phase there armed on =
      let idle = sleeping_entry w id t delay e v at phase there in
      let m' : Manager d = record w.manager { procs = modify id disarm w.manager.procs } in
      let done = stop-idle w.manager id e there idle in
      (
        m',
        overtaken w id t m' l,
        done,
        next
            (next (next here (ready-Step w id t delay e at phase there armed on))
              (stopped id m' none done))
            (relaunches id (record t { phase = launching }) (some l)
              (lookup-insert_self id _ w.tasks) refl),
        rw (
          overtaken-procs w id t m' l,
          lookup-modify id id disarm w.manager.procs,
          beq_refl id,
          there,
        ),
      )
