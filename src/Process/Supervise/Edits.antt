-- ===== src/Process/Supervise/Edits.antt =====
-- What a step of the manager or of a supervise task of src/process.rs can do to the table.
use mesh_supervisor.Prelude.{
  Option-cases, nat_eq, ℕ, ◌+◌, ◌≤◌, ◌<◌, ◌≡◌, refl, sym, ap, subst, ◌∙◌, ◌≢◌, inl, inr, Option,
  none, some, arith,
}
use mesh_supervisor.Process.Table.Forget.{forget-parts}
use mesh_supervisor.Process.Signals.Targets.{stop-parts}
use mesh_supervisor.Process.Signals.{disarm, kill_all_first}
use mesh_supervisor.Map.Laws.{lookup-remove, lookup-modify, lookup-insert}
use mesh_supervisor.Process.Launch.{new_entry, next_id}
use mesh_supervisor.Process.Supervise.World.{
  shut_down, relaunches, wakes, decides, reaps, forgotten, stopped, spawn_failed, spawned, here,
  Step, next,
}
use mesh_supervisor.Process.Launch.{spawn}
use mesh_supervisor.Proto.{exited}
use mesh_supervisor.Map.{remove, modify, insert, lookup}
use mesh_supervisor.Proto.{Handle, Spec}
use mathlib.Core.Option.{some-injective}
use mesh_supervisor.Process.Launch.Spawn.{no_wrap, HasRoom, IsCounted}
use mesh_supervisor.Process.Supervise.World.{Reach, World}
use mesh_supervisor.Process.State.{ProcEntry, Launched, Manager}
use mesh_supervisor.Process.Supervise.{exited, with_status, reap, relaunched, Task, relaunch}
use mesh_supervisor.Store.Database.{Disk}

module _ (d : Disk) where
  pub data Edit (m m' : Manager d) : Type 0 where
    inserts :
        (l : Launched)
        → HasRoom m
        → m'.procs ≡ insert (next_id d m) (new_entry d l) m.procs
        → m'.next ≡ next_id d m
        → Edit m m'
    modifies :
        (id : Handle) (f : ProcEntry → ProcEntry)
        → m'.procs ≡ modify id f m.procs
        → m'.next ≡ m.next
        → Edit m m'
    drops : (id : Handle) → m'.procs ≡ remove id m.procs → m'.next ≡ m.next → Edit m m'
    keeps : m'.procs ≡ m.procs → m.next ≤ m'.next → Edit m m'

  relaunch-Edit :
      (m : Manager d) (id : Handle) (t : Task) (outcome : Option Launched)
      → Edit m (relaunch d m id t outcome).0
  unfolding relaunch
  relaunch-Edit m id t none = keeps refl (omega arith)
  relaunch-Edit m id t (some l) = modifies id (relaunched l) refl refl

  pub Step-Edit : {w u : World d} → Step d w u → Edit w.manager u.manager
  unfolding spawn kill_all_first reap
  Step-Edit (spawned spec l room) = inserts l room refl refl
  Step-Edit (spawn_failed spec room) = keeps refl (omega arith)
  Step-Edit {w} (stopped id m' pid e) =
      let (shape, count, _) = stop-parts d w.manager m' id pid e in modifies id disarm shape count
  Step-Edit {w} (forgotten id m' e) =
      let (shape, count, _) = forget-parts d w.manager m' id e in drops id shape count
  Step-Edit shut_down = keeps refl (omega arith)
  Step-Edit (reaps id t code elapsed at phase) = modifies id (with_status (exited code)) refl refl
  Step-Edit (decides id t code elapsed at phase) = keeps refl (omega arith)
  Step-Edit (wakes id t delay at phase) = keeps refl (omega arith)
  Step-Edit {w} (relaunches id t outcome at phase) = relaunch-Edit w.manager id t outcome

  pub next-Edit : (m m' : Manager d) → Edit m m' → m.next ≤ m'.next
  next-Edit m m' (inserts l room shape count) = omega arith
  next-Edit m m' (modifies id f shape count) = omega arith
  next-Edit m m' (drops id shape count) = omega arith
  next-Edit m m' (keeps shape count) = count

  -- Only a spawn makes an entry, and only at the next handle.
  pub new-Edit :
      (m m' : Manager d) (h : Handle) (e : ProcEntry)
      → Edit m m'
      → lookup h m.procs ≡ none
      → lookup h m'.procs ≡ some e
      → (h ≡ m.next + 1) × (m'.next ≡ m.next + 1)
  new-Edit m m' h e (inserts l room shape count) gone at =
      let passed : next_id d m ≡ m.next + 1 = no_wrap d m room in
      let found =
        sym (lookup-insert (next_id d m) h (new_entry d l) m.procs)
        ∙ sym (ap (lookup h) shape)
        ∙ at in
      ground (arith, passed, found)
  new-Edit m m' h e (modifies id f shape count) gone at =
      let found = sym (lookup-modify id h f m.procs) ∙ sym (ap (lookup h) shape) ∙ at in
      absurd (ground (arith, found))
  new-Edit m m' h e (drops id shape count) gone at =
      let found = sym (lookup-remove id h m.procs) ∙ sym (ap (lookup h) shape) ∙ at in
      absurd (ground (arith, found))
  new-Edit m m' h e (keeps shape count) gone at = absurd (ground (arith, ap (lookup h) shape))

  Edit-IsCounted : (m m' : Manager d) → Edit m m' → IsCounted m → IsCounted m'
  Edit-IsCounted m m' x v = record { counted = counted }
    where
      counted : (h : Handle) (e : ProcEntry) → lookup h m'.procs ≡ some e → h ≤ m'.next
      counted h e at = elim (Option-cases (lookup h m.procs)) [
        | inl gone ↦ omega (arith, new-Edit m m' h e x gone at)
        | inr (old, was) ↦ omega (arith, v.counted h old was, next-Edit m m' x)
      ]

  -- In every state that is reached, the counter is at or above every handle of the table, and it
  -- never falls.
  pub Reach-IsCounted :
      {w u : World d}
      → Reach d w u
      → IsCounted w.manager
      → IsCounted u.manager × (w.manager.next ≤ u.manager.next)
  Reach-IsCounted here v = (v, omega arith)
  Reach-IsCounted {w} {u} (next {v = x} r s) v =
      let (counted, grows) = Reach-IsCounted r v in
      (
        Edit-IsCounted x.manager u.manager (Step-Edit s) counted,
        omega (arith, grows, next-Edit x.manager u.manager (Step-Edit s)),
      )

  -- A handle that was given out and has no entry never gets one again.
  pub Reach-gone :
      {w u : World d}
      → (h : Handle) → Reach d w u
      → lookup h w.manager.procs ≡ none
      → h ≤ w.manager.next
      → (lookup h u.manager.procs ≡ none) × (h ≤ u.manager.next)
  Reach-gone h here gone given = (gone, given)
  Reach-gone {w} {u} h (next {v = x} r s) gone given =
      let (still, below) = Reach-gone h r gone given in
      (
        elim (Option-cases (lookup h u.manager.procs)) [
          | inl e ↦ e
          | inr (e, at) ↦
              absurd (omega (arith, new-Edit x.manager u.manager h e (Step-Edit s) still at))
        ],
        omega (arith, below, next-Edit x.manager u.manager (Step-Edit s)),
      )

  -- A spawn that launches never answers with a handle that is in use or was: if a handle has an entry
  -- in a state between a start where the counter has passed every handle and the spawn, the spawn's
  -- handle is above it, whatever order the steps take and whatever was forgotten since. The counter
  -- has not come to the end of u64.
  pub spawn-fresh :
      {w v u : World d}
      → Reach d w v
      → Reach d v u
      → IsCounted w.manager
      → (spec : Spec) (l : Launched) (used id : Handle) (pid : ℕ) (e : ProcEntry)
      → lookup used v.manager.procs ≡ some e
      → HasRoom u.manager
      → (spawn d u.manager spec (some l)).1 ≡ some (id, pid)
      → (used < id) × (used ≢ id)
  unfolding spawn
  spawn-fresh {v = v} {u = u} before after c spec l used id pid e at room answer =
      let counted = (Reach-IsCounted before c).0 in
      let below : used ≤ v.manager.next = counted.counted used e at in
      let grows = (Reach-IsCounted after counted).1 in
      let same : next_id d u.manager ≡ id = ap (λ r. r.0) (some-injective _ _ answer) in
      let lower : used < id =
        subst (λ k. used < k) same (omega (arith, no_wrap d u.manager room, grows, below)) in
      (lower, λ k. omega (arith, lower, k))
