-- ===== src/Examples/StoreFiles.antt =====
-- Theorems about the file of the store at concrete inputs.
use mesh_supervisor.Prelude.{
  nat_eq, string_eq, ok, ℕ, ◌≡◌, refl, true, false, none, some, [], ◌∷◌, ◌++◌, arith,
}
use mathlib.Core.Option
use mesh_supervisor.Text.{text}
use mesh_supervisor.Sandbox.{mount_tmpfs}
use mesh_supervisor.Sandbox.Order.{plan}
use mesh_supervisor.Cgroup.Paths.{FilePath}
use mesh_supervisor.Store.Database.{Tables, apply_all}
use mesh_supervisor.Store.Files.{Files, IsFiles, OpenStore, open_at, store_hide_dir, into_os_string}
use mesh_supervisor.Store.Files.Private.{IsPrivate}
use mesh_supervisor.Commands.Startup.{start, at_file}
use mesh_supervisor.Commands.Startup.Private.{KeepsKey, start-IsPrivate}
use mesh_supervisor.Process.Launch.Child.{launch_sandboxed, sandbox_for}
use mesh_supervisor.Process.Launch.Hidden.{store_is_hidden}
use mesh_supervisor.Examples.Data.{mem_disk, mem_disk-IsDisk}
use mesh_supervisor.Examples.Startup.{
  readers_only, outside, first_start, first_starts, boxed, fork_of, box_runs,
}
use mesh_supervisor.Examples.Stores.{no_rows, a_key}
use mesh_supervisor.Examples.Cgroups.{leaf_fs, busy_leaf, group}

-- "/var/lib/mesh"
abbrev mesh_dir : FilePath
mesh_dir = text "mesh" ∷ text "lib" ∷ text "var" ∷ []

-- One file: its permission bits and its tables.
abbrev one_file : Files mem_disk
one_file = record {
  State = ℕ × Tables;
  create = λ path s. (s, ok s.1);
  set_permissions = λ path m s. ((m, s.1), ok tt);
  canonicalize = λ path s. some (text "mesh.redb" ∷ mesh_dir);
  mode = λ path s. s.0;
}

one_file-IsFiles : IsFiles one_file
one_file-IsFiles = record { sets = λ path m s e. refl }

-- 0o644
abbrev new_file : ℕ × Tables
new_file = (420, no_rows)

opens : at_file one_file "mesh.redb" new_file (outside no_rows a_key) ≡ outside no_rows a_key
unfolding open_at apply_all
opens = refl

starts_at_file :
    (start mem_disk leaf_fs readers_only
      (at_file one_file "mesh.redb" new_file (outside no_rows a_key))
      busy_leaf).1
    ≡ ok first_start
starts_at_file = rw opens first_starts

start-IsPrivate_example :
    (opened : OpenStore mem_disk) × ((open_at one_file "mesh.redb" new_file).1 ≡ ok opened)
    × IsPrivate one_file "mesh.redb" new_file opened
    × KeepsKey (outside no_rows a_key) opened first_start
start-IsPrivate_example =
    start-IsPrivate one_file leaf_fs "mesh.redb" new_file readers_only (outside no_rows a_key)
      busy_leaf first_start mem_disk-IsDisk one_file-IsFiles starts_at_file

mesh_dir-text : into_os_string mesh_dir ≡ text "/var/lib/mesh"
unfolding into_os_string
mesh_dir-text = refl

hides : store_hide_dir one_file (some "mesh.redb") new_file ≡ some (text "/var/lib/mesh")
unfolding store_hide_dir Option.bind
hides = refl

box_runs_at_file :
    (launch_sandboxed leaf_fs
      (some group)
      7
      boxed
      (store_hide_dir one_file (some "mesh.redb") new_file)
      (some (fork_of false))
      busy_leaf).2
    ≡ true
box_runs_at_file = rw hides box_runs

store_is_hidden_example :
    ((launch_sandboxed leaf_fs
        (some group)
        7
        boxed
        (store_hide_dir one_file (some "mesh.redb") new_file)
        (some (fork_of false))
        busy_leaf).1
      ≡ plan (sandbox_for leaf_fs (some group) 7 boxed none busy_leaf) 41 1000 1000
        ++ mount_tmpfs (into_os_string mesh_dir) ∷ [])
    × ((fork_of false).kernel (mount_tmpfs (into_os_string mesh_dir)) ≡ none)
store_is_hidden_example =
    store_is_hidden one_file leaf_fs (some group) 7 boxed (fork_of false) busy_leaf "mesh.redb"
      new_file (text "mesh.redb") mesh_dir (omega arith) (omega arith) refl refl
      (rw mesh_dir-text refl) box_runs_at_file
