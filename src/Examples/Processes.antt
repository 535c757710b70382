-- ===== src/Examples/Processes.antt =====
-- The theorems on the operations of src/process.rs, at a table of three processes.
use mesh_supervisor.Prelude.{
  ltb, nat_eq, string_eq, All, ℤ, as_i32, ok, pos, negsuc, ℕ, suc, ◌+◌, ◌*◌, ◌/◌, ◌≤◌, ◌<◌, ◌≡◌,
  refl, ◌⊎◌, Bool, false, ◌&&◌, some, arith,
}
use mesh_supervisor.Process.State.{Manager, kill, sigterm}
use mesh_supervisor.Process.Signals.Shutdown.{Runs, IsIdle, kill_all_ends, kill_all}
use mesh_supervisor.Process.Launch.Environment.{child_env-scrubbed, last_setting}
use mesh_supervisor.Proto.{running}
use mesh_supervisor.Examples.Data.{entry_with, sleep_spec, three, mem_disk}
use mesh_supervisor.Map.{lookup}
use mesh_supervisor.Process.Signals.Targets.{shutdown_targets, Aims, Calls, AimsLast, GroupsKilled}
use mesh_supervisor.Process.Table.Forget.{forget-Forgets, Forgets}
use mesh_supervisor.Process.Signals.{kill_all_last, kill_all_first}
use mesh_supervisor.Process.Launch.{default_path, child_env}
use mesh_supervisor.Process.Table.{entry_of, forget}

child_env-scrubbed_example :
    lookup "PATH" (child_env sleep_spec.env)
    ≡ last_setting "PATH" sleep_spec.env (some default_path)
child_env-scrubbed_example = child_env-scrubbed sleep_spec.env "PATH"

forget-Forgets_example : Forgets three 3 (forget mem_disk three 3)
forget-Forgets_example = forget-Forgets mem_disk three 3

two_there : lookup 2 three.procs ≡ some (entry_with running 702)
unfolding lookup
two_there = refl

shutdown_targets_example :
    let first = kill_all_first mem_disk three in
    let last = kill_all_last mem_disk three first.1 in
    All (Aims three.procs) first.2
    × Calls (kill (as_i32 702) sigterm) first.2
    × AimsLast mem_disk three three last
    × GroupsKilled mem_disk three 2 (entry_with running 702) last
shutdown_targets_example =
    shutdown_targets mem_disk three three 2 (entry_with running 702) two_there refl

-- All signals from 1 to 31.
abbrev is_low : ℤ → Bool
is_low (pos n) = ltb 0 n && ltb n 32
is_low (negsuc n) = false

two_tracked : entry_of three.procs 2 ≡ ok (entry_with running 702)
unfolding entry_of lookup
two_tracked = refl

-- A check each 60 milliseconds, at which the process still runs.
abbrev busy_polls : ℕ → ℕ × Manager mem_disk
busy_polls n = (1000 + 60 * n, three)

kill_all_ends_example :
    let (m', pids, terms) = kill_all_first mem_disk three in
    (last : ℕ) × (kill_all mem_disk (suc (three.stop_deadline / 50 + 1)) three 1000 busy_polls
      ≡ some (last, terms, kill_all_last mem_disk (busy_polls last).1 pids))
    × (last ≤ three.stop_deadline / 50 + 1)
    × ((1000 + three.stop_deadline ≤ (busy_polls last).0)
        ⊎ IsIdle mem_disk (busy_polls last).1.procs)
    × ((k : ℕ)
        → k < last
        → ((busy_polls k).0 < 1000 + three.stop_deadline) × Runs mem_disk (busy_polls k).1.procs)
kill_all_ends_example =
    kill_all_ends mem_disk three 1000 busy_polls (λ n. omega arith) (omega arith)
