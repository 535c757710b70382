-- ===== src/Examples/Supervision.antt =====
-- The theorems on the supervise tasks of src/process.rs, at a table of three processes with their
-- tasks: one runs, one waits before a relaunch, and one was there before the supervisor started.
use mesh_supervisor.Process.Supervise.{launching}
use mesh_supervisor.Process.Supervise.World.{forgotten}
use mesh_supervisor.Prelude.{
  nat_beq, Bool-cases, nat_eq, string_eq, ok, pos, ℕ, ◌+◌, ◌≤◌, ◌<◌, ◌≡◌, refl, ◌≢◌, inl, inr, true,
  false, none, some, [], ◌∷◌, arith,
}
use mesh_supervisor.Process.Contract.Refinement.{Reach-Moves}
use mesh_supervisor.Process.Supervise.Restarts.{crash_restarts}
use mesh_supervisor.Process.Supervise.Capped.{relaunches_capped, relaunches_of}
use mesh_supervisor.Process.Supervise.Edits.{spawn-fresh}
use mesh_supervisor.Process.Contract.{forgets, exits, view, Moves}
use mesh_supervisor.Process.Restart.{
  after_exit, retry_or_cap, backoff, next_attempt, should_restart, cap_hit,
}
use mesh_supervisor.Process.Launch.Spawn.{IsCounted}
use mesh_supervisor.Process.Supervise.Down.{IsDropped, NotLaunching}
use mesh_supervisor.Process.Supervise.Races.{stop_race, forget_race}
use mesh_supervisor.Process.Launch.{spawn}
use mesh_supervisor.Proto.{on_failure, running, exited, Handle}
use mesh_supervisor.Examples.Data.{started, sleep_spec, entry_with, mem_disk, three}
use mesh_supervisor.Process.Supervise.Invariant.{Fits, Reach-IsSound, IsSound}
use mesh_supervisor.Process.Supervise.{
  decide, relaunch, reaped, wake, watching, relaunched, reap, sleeping, new_task, Task,
}
use mesh_supervisor.Map.{insert, modify, Map, lookup}
use mesh_supervisor.Process.State.{Manager, ProcEntry}
use mesh_supervisor.Process.Supervise.Disarmed.{stop_is_final, forget_is_final}
use mesh_supervisor.Map
use mesh_supervisor.Process.Supervise.World.{
  decides, relaunches, wakes, shut_down, with_task, reaps, Reach, World, here, next,
}
use mesh_supervisor.Process.Signals.{disarm, kill_all_first, stop}
use mesh_supervisor.Process.Table.{forget}

abbrev asleep : Task
asleep = record { spec = sleep_spec; attempt = 1; phase = sleeping 1000 }

abbrev world : World mem_disk
world = record { manager = three; tasks = (2, new_task sleep_spec) ∷ (3, asleep) ∷ [] }

-- The manager after an edit of its table.
abbrev with_procs : Map Handle ProcEntry → Manager mem_disk
with_procs procs = record three { procs = procs }

world-IsSound : IsSound world
unfolding lookup
world-IsSound = record { fits = fits }
  where
    fits : (h : Handle) → Fits (lookup h world.manager.procs) (lookup h world.tasks)
    fits h = elim (Bool-cases (nat_beq 2 h)) [
      | inl two ↦ rw two refl
      | inr not_two ↦ elim (Bool-cases (nat_beq 3 h)) [
        | inl three_ ↦ rw (not_two, three_) refl
        | inr not_three ↦ elim (Bool-cases (nat_beq 4 h)) [
          | inl four ↦ rw (not_two, not_three, four) refl
          | inr other ↦ rw (not_two, not_three, other) tt
        ]
      ]
    ]

two_watches : lookup 2 world.tasks ≡ some (new_task sleep_spec)
unfolding lookup
two_watches = refl

-- Process 2 exits with code 9.
abbrev after_exit_of_two : World mem_disk
after_exit_of_two =
    with_task world (reap mem_disk three 2 (some (pos 9))).0 2
      (record (new_task sleep_spec) { phase = reaped (some (pos 9)) 400 })

Reach-IsSound_example : IsSound after_exit_of_two
Reach-IsSound_example =
    Reach-IsSound mem_disk
      (next here (reaps 2 (new_task sleep_spec) (some (pos 9)) 400 two_watches refl)) world-IsSound

abbrev stopped_two : Manager mem_disk
stopped_two = with_procs (modify 2 disarm three.procs)

two_stopped : stop mem_disk three 2 ≡ ok (stopped_two, some 702)
unfolding stop lookup
two_stopped = refl

two_idle : NotLaunching (lookup 2 world.tasks)
unfolding lookup
two_idle = refl

abbrev shutting_down : World mem_disk
shutting_down = record world { manager = (kill_all_first mem_disk stopped_two).0 }

stop_is_final_example :
    NotLaunching (lookup 2 shutting_down.tasks) × IsDropped (lookup 2 shutting_down.manager.procs)
stop_is_final_example =
    stop_is_final mem_disk world shutting_down 2 stopped_two (some 702) two_stopped two_idle
      (omega arith) (next here shut_down)

abbrev without_three : Manager mem_disk
without_three = with_procs (Map.remove 3 three.procs)

three_forgotten : forget mem_disk three 3 ≡ ok without_three
unfolding forget lookup
three_forgotten = refl

three_sleeps : lookup 3 world.tasks ≡ some asleep
unfolding lookup
three_sleeps = refl

three_idle : NotLaunching (lookup 3 world.tasks)
unfolding lookup
three_idle = refl

-- The task of the forgotten process wakes.
abbrev woken : World mem_disk
woken =
    with_task (record world { manager = without_three }) without_three 3
      (wake mem_disk without_three 3 asleep)

forget_is_final_example :
    NotLaunching (lookup 3 woken.tasks) × (lookup 3 woken.manager.procs ≡ none)
forget_is_final_example =
    forget_is_final mem_disk world woken 3 without_three three_forgotten three_idle (omega arith)
      (next here (wakes 3 asleep 1000 three_sleeps refl))

abbrev entry_three : ProcEntry
entry_three = entry_with (exited (some (pos 1))) 703

three_there : lookup 3 three.procs ≡ some entry_three
unfolding lookup
three_there = refl

forget_race_example :
    (u : World mem_disk) × Reach mem_disk world u
    × (lookup 3 u.tasks ≡ some (record asleep { phase = watching }))
    × (lookup 3 u.manager.procs ≡ none)
forget_race_example =
    forget_race mem_disk world 3 asleep 1000 entry_three started world-IsSound three_sleeps refl
      three_there refl refl

stop_race_example :
    (m' : Manager mem_disk) × (u : World mem_disk) × (stop mem_disk three 3 ≡ ok (m', none))
    × Reach mem_disk world u
    × (lookup 3 u.manager.procs ≡ some (relaunched started (disarm entry_three)))
stop_race_example =
    stop_race mem_disk world 3 asleep 1000 entry_three started world-IsSound three_sleeps refl
      three_there refl refl

three-IsCounted : IsCounted three
unfolding lookup
three-IsCounted = record { counted = λ h e at. ground arith }

-- Process 2 exits, and process 3 is forgotten and then wakes.
abbrev after_both : World mem_disk
after_both = record after_exit_of_two {
  manager = record after_exit_of_two.manager {
    procs = Map.remove 3 after_exit_of_two.manager.procs;
  };
}

three_forgotten_later : forget mem_disk after_exit_of_two.manager 3 ≡ ok after_both.manager
unfolding forget reap lookup Map.remove modify
three_forgotten_later = refl

exit_and_forget : Reach mem_disk world after_both
exit_and_forget =
    next (next here (reaps 2 (new_task sleep_spec) (some (pos 9)) 400 two_watches refl))
      (forgotten 3 after_both.manager three_forgotten_later)

four_spawned : (spawn mem_disk after_both.manager sleep_spec (some started)).1 ≡ some (5, 705)
unfolding spawn reap
four_spawned = refl

spawn-fresh_example : (3 < 5) × (◌≢◌ {A = ℕ} 3 5)
unfolding reap
spawn-fresh_example =
    spawn-fresh mem_disk here exit_and_forget three-IsCounted sleep_spec started 3 5 705 entry_three
      three_there (omega arith) four_spawned

Reach-Moves_example : Moves (forgets 3 ∷ exits 2 ∷ []) (view three) (view after_both.manager)
unfolding exit_and_forget
Reach-Moves_example = Reach-Moves mem_disk exit_and_forget world-IsSound three-IsCounted

two_there : lookup 2 three.procs ≡ some (entry_with running 702)
unfolding lookup
two_there = refl

failure_restarts : should_restart on_failure (some (pos 9)) ≡ true
unfolding should_restart
failure_restarts = refl

first_of_two : cap_hit 2 (next_attempt 0 400) ≡ false
unfolding cap_hit next_attempt
first_of_two = refl

crash_restarts_example :
    (u : World mem_disk) × Reach mem_disk world u
    × (lookup 2 u.manager.procs
        ≡ some (record (entry_with running 705) {
          stdin = started.stdin;
          stdout = started.stdout;
          restarts = 1;
        }))
    × (lookup 2 u.tasks
        ≡ some (record (new_task sleep_spec) { attempt = next_attempt 0 400; phase = watching }))
crash_restarts_example =
    crash_restarts mem_disk world 2 (new_task sleep_spec) (entry_with running 702) started
      (some (pos 9)) 400 two_watches refl two_there refl refl failure_restarts first_of_two
      (omega arith)

-- Process 2 crashes early and is relaunched.
abbrev crash_reaped : Task
crash_reaped = record (new_task sleep_spec) { phase = reaped (some (pos 9)) 400 }

abbrev after_decision : World mem_disk
after_decision =
    with_task after_exit_of_two after_exit_of_two.manager 2
      (decide mem_disk after_exit_of_two.manager 2 crash_reaped (some (pos 9)) 400)

abbrev crash_asleep : Task
crash_asleep = record (new_task sleep_spec) { attempt = 1; phase = sleeping 1000 }

abbrev after_sleep : World mem_disk
after_sleep =
    with_task after_decision after_decision.manager 2
      (wake mem_disk after_decision.manager 2 crash_asleep)

abbrev crash_awake : Task
crash_awake = record crash_asleep { phase = launching }

abbrev after_relaunch : World mem_disk
after_relaunch =
    with_task after_sleep (relaunch mem_disk after_sleep.manager 2 crash_awake (some started)).0 2
      (relaunch mem_disk after_sleep.manager 2 crash_awake (some started)).1

reaped_there : lookup 2 after_exit_of_two.tasks ≡ some crash_reaped
unfolding lookup insert
reaped_there = refl

asleep_there : lookup 2 after_decision.tasks ≡ some crash_asleep
unfolding lookup insert decide after_exit retry_or_cap cap_hit next_attempt backoff should_restart
    reap modify
asleep_there = refl

awake_there : lookup 2 after_sleep.tasks ≡ some crash_awake
unfolding lookup insert wake reap modify
awake_there = refl

crash_run : Reach mem_disk world after_relaunch
crash_run =
    next
      (next
        (next (next here (reaps 2 (new_task sleep_spec) (some (pos 9)) 400 two_watches refl))
          (decides 2 crash_reaped (some (pos 9)) 400 reaped_there refl))
        (wakes 2 crash_asleep 1000 asleep_there refl))
      (relaunches 2 crash_awake (some started) awake_there refl)

relaunches_capped_example : relaunches_of 2 crash_run + 0 ≤ 2
unfolding crash_run
relaunches_capped_example =
    relaunches_capped mem_disk 2 (new_task sleep_spec) crash_run two_watches refl (omega arith)
      (omega arith) (omega arith) (omega arith) ((((tt, tt), λ same. omega arith), tt), tt)
