-- ===== src/Process/Contract.antt =====
-- What src/process.rs promises its clients, without pids, pipes, backoff or tasks: a handle stands
-- for a process that is alive or not, and that its operator still wants or not.
pub mod Refinement
use mesh_supervisor.Prelude.{
  nat_beq, if◌then◌else◌, nat_eq, ◌≡◌, ◌⊎◌, Bool, true, false, Option, none, some, List, [], ◌∷◌,
}
use mesh_supervisor.Map.{lookup}
use mesh_supervisor.Proto.{is_running, Handle}
use mesh_supervisor.Store.Database.{Disk}
use mesh_supervisor.Process.State.{Manager, ProcEntry}
use mathlib.Core.Option

pub record Proc : Type 0 where
  pub alive : Bool
  pub wanted : Bool

abbrev pub View : Type 0
View = Handle → Option Proc

-- The view `u` is `v` with the process of `h` replaced.
abbrev pub Becomes : Handle → Option Proc → View → View → Type 0
Becomes h x v u = (j : Handle) → u j ≡ (if nat_beq h j then x else v j)

-- What a client may see happen. `tick` is a step that it does not see.
pub data Event : Type 0 where
  starts halts exits revives forgets : Handle → Event
  tick : Event

abbrev pub Stays : View → View → Type 0
Stays v u = (j : Handle) → u j ≡ v j

-- Which views an event may lead from and to. An exit and a relaunch of a process that was forgotten
-- show nothing.
abbrev pub Move : Event → View → View → Type 0
Move (starts h) v u = (v h ≡ none) × Becomes h (some (record { alive = true; wanted = true })) v u
Move (halts h) v u =
    (p : Proc) × (v h ≡ some p) × Becomes h (some (record { alive = p.alive; wanted = false })) v u
Move (exits h) v u =
    ((v h ≡ none) × Stays v u)
    ⊎ ((wanted : Bool) × (v h ≡ some (record { alive = true; wanted = wanted }))
        × Becomes h (some (record { alive = false; wanted = wanted })) v u)
Move (revives h) v u =
    ((v h ≡ none) × Stays v u)
    ⊎ ((wanted : Bool) × (v h ≡ some (record { alive = false; wanted = wanted }))
        × Becomes h (some (record { alive = true; wanted = wanted })) v u)
Move (forgets h) v u =
    ((wanted : Bool) × (v h ≡ some (record { alive = false; wanted = wanted })))
    × Becomes h none v u
Move tick v u = Stays v u

-- The events of a run, the last one first.
pub data Moves : List Event → View → View → Type 0 where
  here : {v : View} → Moves [] v v
  next :
      {v u t : View} {es : List Event} {e : Event} → Moves es v u → Move e u t → Moves (e ∷ es) v t

abbrev pub summary : ProcEntry → Proc
summary e = record { alive = is_running e.status; wanted = e.armed }

abbrev pub view : {d : Disk} → Manager d → View
view m h = Option.map summary (lookup h m.procs)
