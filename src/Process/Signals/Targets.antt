-- ===== src/Process/Signals/Targets.antt =====
-- Whom `kill_all`, `stop` and `signal` of src/process.rs may signal: running children only.
use mesh_supervisor.Prelude.{
  nat_beq, if◌then◌else◌, Bool-cases, Option-cases, ◌==◌, nat_eq, All, >>=-eq-ok, ℤ, as_i32,
  neg_i32, ok, err, ℕ, ◌≡◌, refl, sym, ap, subst, ◌⊎◌, inl, inr, Bool, true, false, Option, none,
  some, List, [], ◌∷◌, arith,
}
use mesh_supervisor.Process.Table.{entry_of}
use mesh_supervisor.Map.{modify, Map, lookup}
use mesh_supervisor.Map.Laws.{lookup-modify}
use mathlib.Core.Option.{some-injective}
use mesh_supervisor.Proto.{Handle, not_found, is_running}
use mesh_supervisor.Process.State.{
  ProcEntry, Manager, Effect, kill, kill_leaf, remove_group, create_leaf, remove_leaf, exec,
  sigterm, sigkill,
}
use mesh_supervisor.Process.Signals.{
  live_pids, send_all, negate_all, kill_all_first, kill_all_last, stop, signal, SignalTable, disarm,
  live_pid,
}
use mesh_supervisor.Store.Database.{Disk}

-- A call is among others.
abbrev pub Calls : Effect → List Effect → Type 0
Calls c [] = ⊥
Calls c (x ∷ xs) = (x ≡ c) ⊎ Calls c xs

-- Some entry of a table.
abbrev pub Some : (ProcEntry → Type 0) → Map Handle ProcEntry → Type 0
Some P [] = ⊥
Some P ((h, e) ∷ rest) = P e ⊎ Some P rest

abbrev pub Every : (ProcEntry → Type 0) → Map Handle ProcEntry → Type 0
Every P [] = Unit {0}
Every P ((h, e) ∷ rest) = P e × Every P rest

-- A running child's pid, or the group that it leads.
abbrev pub Hits : ℤ → ProcEntry → Type 0
Hits p e = (is_running e.status ≡ true) × ((p ≡ as_i32 e.pid) ⊎ (p ≡ neg_i32 (as_i32 e.pid)))

-- The call signals a running child of the table.
abbrev pub Aims : Map Handle ProcEntry → Effect → Type 0
Aims procs (kill p sig) = Some (Hits p) procs
Aims procs remove_group = ⊥
Aims procs (create_leaf h l) = ⊥
Aims procs (exec h c) = ⊥
Aims procs (remove_leaf h) = ⊥
Aims procs (kill_leaf h) = ⊥

abbrev LivePid : Map Handle ProcEntry → ℤ → Type 0
LivePid procs p = Some (λ e. (is_running e.status ≡ true) × (p ≡ as_i32 e.pid)) procs

All-weaken : (P Q : ℤ → Type 0) → ((p : ℤ) → P p → Q p) → (ps : List ℤ) → All P ps → All Q ps
All-weaken P Q f [] a = tt
All-weaken P Q f (p ∷ ps) a = (f p a.0, All-weaken P Q f ps a.1)

live_pids-LivePid : (procs : Map Handle ProcEntry) → All (LivePid procs) (live_pids procs)
unfolding live_pids
live_pids-LivePid [] = tt
live_pids-LivePid ((h, e) ∷ rest) =
    let below : All (LivePid ((h, e) ∷ rest)) (live_pids rest) =
      All-weaken _ _ (λ p x. inr x) (live_pids rest) (live_pids-LivePid rest) in
    elim (Bool-cases (is_running e.status)) [
      | inl runs ↦ rw runs (inl (runs, refl), below)
      | inr gone ↦ rw gone below
    ]

Some-map :
    (P Q : ProcEntry → Type 0)
    → ((e : ProcEntry) → P e → Q e)
    → (procs : Map Handle ProcEntry) → Some P procs
    → Some Q procs
Some-map P Q f ((h, e) ∷ rest) (inl x) = inl (f e x)
Some-map P Q f ((h, e) ∷ rest) (inr x) = inr (Some-map P Q f rest x)
Some-map P Q f [] x = x

send_all-Aims :
    (procs : Map Handle ProcEntry) (sig : ℤ) (ps : List ℤ)
    → All (LivePid procs) ps
    → All (Aims procs) (send_all sig ps)
unfolding send_all
send_all-Aims procs sig [] a = tt
send_all-Aims procs sig (p ∷ ps) a =
    (Some-map _ _ (λ e x. (x.0, inl x.1)) procs a.0, send_all-Aims procs sig ps a.1)

send_groups-Aims :
    (procs : Map Handle ProcEntry) (sig : ℤ) (ps : List ℤ)
    → All (LivePid procs) ps
    → All (Aims procs) (send_all sig (negate_all ps))
unfolding send_all negate_all
send_groups-Aims procs sig [] a = tt
send_groups-Aims procs sig (p ∷ ps) a =
    (Some-map _ _ (λ e x. (x.0, inr (ap neg_i32 x.1))) procs a.0, send_groups-Aims procs sig ps a.1)

module _ (d : Disk) where
  live_pids-Calls :
      (sig : ℤ) (procs : Map Handle ProcEntry) (h : Handle) (e : ProcEntry)
      → lookup h procs ≡ some e
      → is_running e.status ≡ true
      → Calls (kill (as_i32 e.pid) sig) (send_all sig (live_pids procs))
        × Calls (kill (neg_i32 (as_i32 e.pid)) sig) (send_all sig (negate_all (live_pids procs)))
  unfolding live_pids send_all negate_all lookup
  live_pids-Calls sig [] h e at runs = cc
  live_pids-Calls sig ((j, x) ∷ rest) h e at runs =
      by_key (j == h) at (λ k. live_pids-Calls sig rest h e k runs)
    where
      by_key :
          (same : Bool)
          → (if same then some x else lookup h rest) ≡ some e
          → (lookup h rest ≡ some e
              → Calls (kill (as_i32 e.pid) sig) (send_all sig (live_pids rest))
                × Calls
                    (kill (neg_i32 (as_i32 e.pid)) sig)
                    (send_all sig (negate_all (live_pids rest))))
          → Calls (kill (as_i32 e.pid) sig) (send_all sig (live_pids ((j, x) ∷ rest)))
            × Calls
                (kill (neg_i32 (as_i32 e.pid)) sig)
                (send_all sig (negate_all (live_pids ((j, x) ∷ rest))))
      by_key true k later =
          let same : x ≡ e = some-injective _ _ k in
          rw (subst (λ (y : ProcEntry). is_running y.status ≡ true) (sym same) runs) (
            inl (ap (λ (y : ProcEntry). kill (as_i32 y.pid) sig) same),
            inl (ap (λ (y : ProcEntry). kill (neg_i32 (as_i32 y.pid)) sig) same),
          )
      by_key false k later = elim (Bool-cases (is_running x.status)) [
        | inl live ↦ rw live (inr (later k).0, inr (later k).1)
        | inr gone ↦ rw gone (later k)
      ]

  -- The call after the wait that ends one running child: the removal of all groups, or a SIGKILL to
  -- the group that the child leads.
  abbrev pub GroupsKilled : Manager d → Handle → ProcEntry → List Effect → Type 0
  GroupsKilled later h e last =
      if later.cgroups
      then last ≡ remove_group ∷ []
      else Calls (kill (neg_i32 (as_i32 e.pid)) sigkill) last

  -- Nobody else is signalled after the wait.
  abbrev pub AimsLast : Manager d → Manager d → List Effect → Type 0
  AimsLast m later last =
      if later.cgroups then last ≡ remove_group ∷ [] else All (Aims m.procs) last

  -- The signals of a shutdown, whatever the table looks like (`later`) when the wait is over. Before
  -- the wait, it sends signals to children that run when it starts and to nobody else, a SIGTERM to
  -- each: an entry that is stale or has exited gives no target, whatever pid it holds. After the wait
  -- and without cgroups, it signals the process groups that those children lead and nobody else, each
  -- with a SIGKILL. With cgroups, its one call after the wait removes the group with whatever is in
  -- its leaves by then, children that were launched during the wait as well.
  pub shutdown_targets :
      (m later : Manager d) (h : Handle) (e : ProcEntry)
      → lookup h m.procs ≡ some e
      → is_running e.status ≡ true
      → let first = kill_all_first d m in
        let last = kill_all_last d later first.1 in
        All (Aims m.procs) first.2
        × Calls (kill (as_i32 e.pid) sigterm) first.2
        × AimsLast m later last
        × GroupsKilled later h e last
  unfolding kill_all_first kill_all_last
  shutdown_targets m later h e at runs = (
    send_all-Aims m.procs sigterm (live_pids m.procs) (live_pids-LivePid m.procs),
    (live_pids-Calls sigterm m.procs h e at runs).0,
    elim (Bool-cases later.cgroups) [
      | inl some_group ↦ rw some_group refl
      | inr no_group ↦
          rw no_group
            (send_groups-Aims m.procs sigkill (live_pids m.procs) (live_pids-LivePid m.procs))
    ],
    elim (Bool-cases later.cgroups) [
      | inl some_group ↦ rw some_group refl
      | inr no_group ↦ rw no_group (live_pids-Calls sigkill m.procs h e at runs).1
    ],
  )

  -- `stop` refuses a handle that is not tracked. Otherwise it disarms the entry of its handle,
  -- changes nothing else of the table, and asks for a termination exactly if the entry runs.
  pub stop_lem :
      (m : Manager d) (id : Handle)
      → ((lookup id m.procs ≡ none) × (stop d m id ≡ err (not_found id)))
        ⊎ ((e : ProcEntry) × (m' : Manager d) × (lookup id m.procs ≡ some e)
            × (stop d m id ≡ ok (m', live_pid e))
            × ((j : Handle)
                → lookup j m'.procs ≡ (if nat_beq id j then some (disarm e) else lookup j m.procs)))
  unfolding stop
  stop_lem m id = elim (Option-cases (lookup id m.procs)) [
    | inl gone ↦ inl (gone, ground (arith, gone))
    | inr (e, at) ↦ inr (
      e,
      record m { procs = modify id disarm m.procs },
      at,
      ground (arith, at),
      λ j. ground (arith, lookup-modify id j disarm m.procs, at),
    )
  ]

  -- A signal that is sent is a valid one, to the pid of an entry that is tracked under the handle
  -- and runs, and is the only call.
  pub signal_needs :
      (table : SignalTable) (delivered : Bool) (m : Manager d) (id : Handle) (sig : ℤ)
      (calls : List Effect)
      → signal d table delivered m id sig ≡ ok calls
      → (e : ProcEntry) × (lookup id m.procs ≡ some e)
        × (is_running e.status ≡ true)
        × (table.is_valid sig ≡ true)
        × (calls ≡ kill (as_i32 e.pid) sig ∷ [])
  unfolding signal
  signal_needs table delivered m id sig calls h = elim (Option-cases (lookup id m.procs)) [
    | inl gone ↦ absurd (ground (arith, gone))
    | inr (e, at) ↦ (e, at, ground (arith, at), ground (arith, at), ground (arith, at))
  ]

  -- The shape of the manager after a `stop`.
  pub stop-parts :
      (m m' : Manager d) (id : Handle) (pid : Option ℕ)
      → stop d m id ≡ ok (m', pid)
      → (m'.procs ≡ modify id disarm m.procs) × (m'.next ≡ m.next) × (m'.shutdown ≡ m.shutdown)
  unfolding stop
  stop-parts m m' id pid e =
      let (entry, p, q) = >>=-eq-ok (entry_of m.procs id) _ e in ground (arith, q)
