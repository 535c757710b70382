-- ===== src/Examples/Startup.antt =====
-- Theorems about the start of a supervisor, and the launch of a child, at concrete inputs.
use mesh_supervisor.Prelude.{
  if◌then◌else◌, nat_eq, All, ok, ◌≡◌, refl, Bool, true, false, none, some, [], ◌∷◌, arith,
}
use mesh_supervisor.Cgroup.Paths.{words, is_below, join_relative, after_colons, same_path}
use mesh_supervisor.Store.Counter.{to_le_bytes, from_le_bytes}
use mesh_supervisor.Store.Sort.{sort_by_key}
use mesh_supervisor.Commands.{authz_from_matches}
use mesh_supervisor.Examples.Texts.{no_namespaces}
use mesh_supervisor.Cgroup.Removal.{after_sleeps}
use mesh_supervisor.Map.{insert, lookup}
use mesh_supervisor.Sandbox.Order.{IsGranted, plan}
use mesh_supervisor.Proto.{Spec, running}
use mesh_supervisor.Examples.Stores.{row_put, a_key, no_rows, with_key, key_and_row}
use mesh_supervisor.Examples.Data.{sleep_spec, web, mem_disk-IsDisk, mem_disk}
use mesh_supervisor.Config.{default_supervisor}
use mesh_supervisor.Process.Launch.{with_store}
use mesh_supervisor.Store.Database.{apply_all, Tables}
use mesh_supervisor.Commands.Startup.Ready.{start-IsReady, restart_identity, IsReady}
use mesh_supervisor.Commands.Startup.{
  serve, open_store, Outside, Running, SuperviseArgs, new_supervisor, start,
}
use mesh_supervisor.Store.Identity.{puts, here}
use mesh_supervisor.Store.{max_key, decode_records, secret_key, load}
use mesh_supervisor.Cgroup
use mesh_supervisor.Examples.Cgroups.{leaf_fs-IsRemoving, busy_leaf, leaf_fs}
use mesh_supervisor.Process.Launch.Child.{
  launch_restricts, sandbox_for, launch_cleans, Fork, launch_sandboxed,
}
use mesh_supervisor.Sandbox.{new_sandbox, Sandbox, enter_namespaces, apply}
use mesh_supervisor.Text.{trim, strip_prefix, lines, text}
use mesh_supervisor.Cgroup.{kill_dir, leaf_of, create_leaf}
use mesh_supervisor.Examples.Cgroups.{present, group}
use mesh_supervisor.Proto.Frame.{Bytes}
use mathlib.Core.Option

abbrev pub readers_only : SuperviseArgs
readers_only = record { cfg = default_supervisor; is_open = false; control = []; read = 8 ∷ [] }

abbrev pub outside : Tables → Bytes → Outside mem_disk
outside db generated = record { opened = ok db; generated = generated; binds = true; joins = true }

-- The supervisor that starts on a new store, with cgroups.
abbrev pub first_start : Running mem_disk
first_start = record {
  supervisor =
      new_supervisor mem_disk readers_only true with_key (record { records = []; next_handle = 0 })
        (record { is_open = false; control = []; read = 8 ∷ [] });
  key = a_key;
}

-- And the one that starts after a process was recorded.
abbrev second_start : Running mem_disk
second_start = record {
  supervisor =
      new_supervisor mem_disk readers_only true key_and_row
        (record { records = (1, web 701 running) ∷ []; next_handle = 1 })
        (record { is_open = false; control = []; read = 8 ∷ [] });
  key = a_key;
}

pub first_starts :
    (start mem_disk leaf_fs readers_only (outside no_rows a_key) busy_leaf).1 ≡ ok first_start
unfolding start open_store serve secret_key lookup load decode_records authz_from_matches
    sort_by_key from_le_bytes Cgroup.detect Option.bind max_key same_path lines after_colons
    strip_prefix join_relative trim is_below words apply_all insert
first_starts = refl

second_starts :
    (start mem_disk leaf_fs readers_only (outside key_and_row []) busy_leaf).1 ≡ ok second_start
unfolding start open_store serve secret_key lookup load decode_records authz_from_matches
    sort_by_key from_le_bytes Cgroup.detect Option.bind max_key same_path lines after_colons
    strip_prefix join_relative trim is_below words to_le_bytes
second_starts = refl

start-IsReady_example : IsReady readers_only first_start.supervisor
start-IsReady_example =
    start-IsReady mem_disk mem_disk-IsDisk leaf_fs readers_only (outside no_rows a_key) busy_leaf
      first_start first_starts

first_store : first_start.supervisor.procs.store ≡ some with_key
unfolding new_supervisor with_store
first_store = refl

restart_identity_example : second_start.key ≡ first_start.key
restart_identity_example =
    restart_identity mem_disk mem_disk-IsDisk leaf_fs readers_only readers_only
      (outside no_rows a_key) (outside key_and_row []) busy_leaf busy_leaf first_start second_start
      with_key key_and_row first_starts first_store (puts 1 (web 701 running) here row_put) refl
      second_starts

abbrev pub boxed : Spec
boxed = record sleep_spec {
  limits = record { memory = some 65536; pids = none; cpu = none };
  isolate = true;
}

-- A child of user and group 1000, whose kernel refuses to unshare if `refuses`.
abbrev pub fork_of : Bool → Fork
fork_of refuses = record {
  pid = 41;
  uid = 1000;
  gid = 1000;
  kernel = if refuses then no_namespaces else λ c. none;
  executes = true;
}

pub box_runs :
    (launch_sandboxed leaf_fs
      (some group)
      7
      boxed
      (some (text "/var/lib/mesh"))
      (some (fork_of false))
      busy_leaf).2
    ≡ true
unfolding launch_sandboxed apply enter_namespaces new_sandbox create_leaf
box_runs = refl

box_fails :
    (launch_sandboxed leaf_fs (some group) 7 boxed none (some (fork_of true)) busy_leaf).2 ≡ false
unfolding launch_sandboxed apply enter_namespaces new_sandbox create_leaf
box_fails = refl

abbrev box : Sandbox
box = sandbox_for leaf_fs (some group) 7 boxed (some (text "/var/lib/mesh")) busy_leaf

launch_restricts_example :
    ((launch_sandboxed leaf_fs
        (some group)
        7
        boxed
        (some (text "/var/lib/mesh"))
        (some (fork_of false))
        busy_leaf).1
      ≡ plan box 41 1000 1000)
    × All (IsGranted (λ c. none)) (plan box 41 1000 1000)
launch_restricts_example =
    launch_restricts leaf_fs (some group) 7 boxed (some (text "/var/lib/mesh")) (fork_of false)
      busy_leaf (omega arith) (omega arith) box_runs

leaf_goes :
    (leaf_fs.remove_dir (leaf_of group 7) (
      after_sleeps leaf_fs 3 (
        kill_dir leaf_fs
          (leaf_of group 7)
          (create_leaf leaf_fs group 7 boxed.limits busy_leaf).0))).1
    ≡ true
unfolding create_leaf
leaf_goes = refl

launch_cleans_example :
    present (launch_sandboxed leaf_fs (some group) 7 boxed none (some (fork_of true)) busy_leaf).0
    ≡ false
launch_cleans_example =
    launch_cleans leaf_fs leaf_fs-IsRemoving group 7 boxed none (some (fork_of true)) 3 busy_leaf
      box_fails (omega arith) leaf_goes
