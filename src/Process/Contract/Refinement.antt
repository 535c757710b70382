-- ===== src/Process/Contract/Refinement.antt =====
-- Every step of the manager and of the supervise tasks of src/process.rs is a move of its contract.
use mesh_supervisor.Prelude.{
  nat_beq, if◌then◌else◌, Option-cases, nat_eq, ℤ, ok, ℕ, ◌≡◌, refl, ap, subst, ◌∙◌, inl, inr, Bool,
  true, false, Option, none, some, List, [], ◌∷◌, arith,
}
use mesh_supervisor.Process.Supervise.Edits.{Reach-IsCounted}
use mesh_supervisor.Process.Launch.Spawn.{unused, HasRoom, IsCounted}
use mesh_supervisor.Process.Signals.Targets.{stop-parts, stop_lem}
use mesh_supervisor.Map.Laws.{lookup-insert, lookup-remove, lookup-eq_key, lookup-modify}
use mesh_supervisor.Map.{remove, modify, lookup}
use mesh_supervisor.Proto.{is_running, Spec, Handle}
use mesh_supervisor.Process.Contract.{
  exits, forgets, tick, revives, starts, halts, Event, Moves, Move, Becomes, view, summary,
}
use mesh_supervisor.Store.Database.{Disk}
use mesh_supervisor.Process.State.{Launched, Manager, ProcEntry}
use mathlib.Core.Option
use mesh_supervisor.Process.Supervise.World
use mesh_supervisor.Process.Contract
use mesh_supervisor.Process.Launch.{new_entry, next_id, spawn}
use mesh_supervisor.Proto.{exited}
use mesh_supervisor.Process.Supervise.Invariant.{Fits, is_watching, IsSound, Reach-IsSound}
use mesh_supervisor.Process.Supervise.{
  relaunched, watching, launching, Task, reap, relaunch, with_status,
}
use mesh_supervisor.Process.Supervise.World.{
  Reach, World, Step, spawned, spawn_failed, stopped, forgotten, shut_down, reaps, decides, wakes,
  relaunches,
}
use mesh_supervisor.Process.Table.Forget.{
  forget-Forgets, forget-parts, Forgets, unknown, refused, dropped,
}
use mesh_supervisor.Process.Table.{forget}
use mesh_supervisor.Process.Signals.{disarm, kill_all_first, stop}

map-summary-if :
    (b : Bool) (f : ProcEntry → ProcEntry) (o : Option ProcEntry) (e : ProcEntry)
    → (b ≡ true → o ≡ some e)
    → Option.map summary (if b then Option.map f o else o)
      ≡ (if b then some (summary (f e)) else Option.map summary o)
map-summary-if true f o e at = rw (at refl)
map-summary-if false f o e at = refl

map-summary-if_none :
    (b : Bool) (f : ProcEntry → ProcEntry) (o : Option ProcEntry)
    → (b ≡ true → o ≡ none)
    → Option.map summary (if b then Option.map f o else o) ≡ Option.map summary o
map-summary-if_none true f o gone = rw (gone refl)
map-summary-if_none false f o gone = refl

module _ (d : Disk) where
  modify-Becomes :
      (m m' : Manager d) (h : Handle) (f : ProcEntry → ProcEntry) (e : ProcEntry)
      → lookup h m.procs ≡ some e
      → m'.procs ≡ modify h f m.procs
      → Becomes h (some (summary (f e))) (view m) (view m')
  modify-Becomes m m' h f e at shape j =
      rw (shape, lookup-modify h j f m.procs)
        (map-summary-if (nat_beq h j) f (lookup j m.procs) e
          (lookup-eq_key h j (some e) m.procs at))

  modify-stays :
      (m m' : Manager d) (h : Handle) (f : ProcEntry → ProcEntry)
      → lookup h m.procs ≡ none
      → m'.procs ≡ modify h f m.procs
      → (j : Handle) → view m' j ≡ view m j
  modify-stays m m' h f gone shape j =
      rw (shape, lookup-modify h j f m.procs)
        (map-summary-if_none (nat_beq h j) f (lookup j m.procs)
          (lookup-eq_key h j none m.procs gone))

  view-some :
      (m : Manager d) (h : Handle) (e : ProcEntry)
      → lookup h m.procs ≡ some e
      → view m h ≡ some (summary e)
  view-some m h e at = rw at refl

  view-none : (m : Manager d) (h : Handle) → lookup h m.procs ≡ none → view m h ≡ none
  view-none m h gone = rw gone refl

  spawn-starts :
      (m : Manager d) (spec : Spec) (l : Launched)
      → IsCounted m
      → HasRoom m
      → Move (starts (next_id d m)) (view m) (view (spawn d m spec (some l)).0)
  unfolding spawn
  spawn-starts m spec l v room = (
    rw (unused d m v room) refl,
    λ j. rw (lookup-insert (next_id d m) j (new_entry d l) m.procs) (ground arith),
  )

  stop-halts :
      (m m' : Manager d) (id : Handle) (pid : Option ℕ)
      → stop d m id ≡ ok (m', pid)
      → Move (halts id) (view m) (view m')
  stop-halts m m' id pid e =
      let (shape, _, _) = stop-parts d m m' id pid e in
      elim (stop_lem d m id) [
        | inl (gone, none_such) ↦ absurd (cc (e, none_such))
        | inr (x, m'', at, done, rest) ↦
            (summary x, view-some m id x at, modify-Becomes m m' id disarm x at shape)
      ]

  -- A summary that is known to be alive, or not.
  summary-alive :
      (x : ProcEntry) (b : Bool)
      → is_running x.status ≡ b
      → summary x ≡ record { alive = b; wanted = x.armed }
  summary-alive x b e = ap (λ a. record { alive = a; wanted = x.armed }) e

  forget-vanishes :
      (m m' : Manager d) (id : Handle)
      → forget d m id ≡ ok m'
      → Move (forgets id) (view m) (view m')
  forget-vanishes m m' id e = by_outcome (forget-Forgets d m id)
    where
      gone : m'.procs ≡ remove id m.procs → Becomes id none (view m) (view m')
      gone shape j = rw (shape, lookup-remove id j m.procs) (ground arith)

      by_outcome : Forgets m id (forget d m id) → Move (forgets id) (view m) (view m')
      by_outcome (unknown missing r) = absurd (cc (e, r))
      by_outcome (refused x there runs r) = absurd (cc (e, r))
      by_outcome (dropped x m'' there idle r rest count) = (
        (x.armed, view-some m id x there ∙ ap some (summary-alive x false idle)),
        gone (forget-parts d m m' id e).0,
      )

  -- What the agreement of table and tasks says of an entry whose task is known.
  task_status :
      (w : World d) (id : Handle) (t : Task) (x : ProcEntry)
      → IsSound w
      → lookup id w.tasks ≡ some t
      → lookup id w.manager.procs ≡ some x
      → is_running x.status ≡ is_watching t.phase
  task_status w id t x v at there =
      subst (Fits (some x)) at (subst (λ o. Fits o (lookup id w.tasks)) there (v.fits id))

  reap-dies :
      (w : World d) (id : Handle) (t : Task) (code : Option ℤ)
      → IsSound w
      → lookup id w.tasks ≡ some t
      → t.phase ≡ watching
      → Move (exits id) (view w.manager) (view (reap d w.manager id code).0)
  unfolding reap
  reap-dies w id t code v at phase = elim (Option-cases (lookup id w.manager.procs)) [
    | inl gone ↦ inl (
      view-none w.manager id gone,
      modify-stays w.manager (reap d w.manager id code).0 id (with_status (exited code)) gone refl,
    )
    | inr (x, there) ↦ inr (
      x.armed,
      view-some w.manager id x there
          ∙ ap some (summary-alive x true (task_status w id t x v at there ∙ ap is_watching phase)),
      modify-Becomes w.manager (reap d w.manager id code).0 id (with_status (exited code)) x there
          refl,
    )
  ]

  -- A relaunch that fails shows nothing.
  abbrev pub relaunch_event : Handle → Option Launched → Event
  relaunch_event id none = tick
  relaunch_event id (some l) = revives id

  relaunch-revives :
      (w : World d) (id : Handle) (t : Task) (outcome : Option Launched)
      → IsSound w
      → lookup id w.tasks ≡ some t
      → t.phase ≡ launching
      → Move
          (relaunch_event id outcome)
          (view w.manager)
          (view (relaunch d w.manager id t outcome).0)
  unfolding relaunch
  relaunch-revives w id t none v at phase = λ j. refl
  relaunch-revives w id t (some l) v at phase = elim (Option-cases (lookup id w.manager.procs)) [
    | inl gone ↦ inl (
      view-none w.manager id gone,
      modify-stays w.manager (relaunch d w.manager id t (some l)).0 id (relaunched l) gone refl,
    )
    | inr (x, there) ↦ inr (
      x.armed,
      view-some w.manager id x there
          ∙ ap some
              (summary-alive x false (task_status w id t x v at there ∙ ap is_watching phase)),
      modify-Becomes w.manager (relaunch d w.manager id t (some l)).0 id (relaunched l) x there
          refl,
    )
  ]

  -- What a step is to a client: the request that was granted, or what its task did.
  abbrev pub event_of : {w u : World d} → Step d w u → Event
  event_of {w} (spawned spec l room) = starts (next_id d w.manager)
  event_of (spawn_failed spec room) = tick
  event_of (stopped id m' pid e) = halts id
  event_of (forgotten id m' e) = forgets id
  event_of shut_down = tick
  event_of (reaps id t code elapsed at phase) = exits id
  event_of (decides id t code elapsed at phase) = tick
  event_of (wakes id t delay at phase) = tick
  event_of (relaunches id t outcome at phase) = relaunch_event id outcome

  -- The events of a run, the last one first.
  abbrev pub events_of : {w u : World d} → Reach d w u → List Event
  events_of World.here = []
  events_of (World.next r s) = event_of s ∷ events_of r

  Step-Move :
      {w u : World d}
      → (s : Step d w u) → IsSound w
      → IsCounted w.manager
      → Move (event_of s) (view w.manager) (view u.manager)
  unfolding kill_all_first spawn
  Step-Move {w} (spawned spec l room) v c = spawn-starts w.manager spec l c room
  Step-Move (spawn_failed spec room) v c = λ j. refl
  Step-Move {w} (stopped id m' pid e) v c = stop-halts w.manager m' id pid e
  Step-Move {w} (forgotten id m' e) v c = forget-vanishes w.manager m' id e
  Step-Move shut_down v c = λ j. refl
  Step-Move {w} (reaps id t code elapsed at phase) v c = reap-dies w id t code v at phase
  Step-Move (decides id t code elapsed at phase) v c = λ j. refl
  Step-Move (wakes id t delay at phase) v c = λ j. refl
  Step-Move {w} (relaunches id t outcome at phase) v c = relaunch-revives w id t outcome v at phase

  -- The manager with its tasks implements the contract: from a state in which table and tasks
  -- agree and the counter has passed every handle, whatever order its steps take, what a client can
  -- tell of the processes changes by the moves that the contract allows for these very steps, one for
  -- each. A granted spawn starts a process at a free handle, alive and wanted; a granted stop makes
  -- its process unwanted and leaves it alive or not as it was; an exit is of a live process, and a
  -- relaunch of a dead one; a granted forget drops a dead process, never a live one; and no step
  -- changes any other process.
  pub Reach-Moves :
      {w u : World d}
      → (r : Reach d w u) → IsSound w
      → IsCounted w.manager
      → Moves (events_of r) (view w.manager) (view u.manager)
  Reach-Moves World.here v c = Contract.here
  Reach-Moves (World.next r s) v c =
      Contract.next (Reach-Moves r v c)
        (Step-Move s (Reach-IsSound d r v) (Reach-IsCounted d r c).0)
