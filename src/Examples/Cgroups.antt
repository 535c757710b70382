-- ===== src/Examples/Cgroups.antt =====
-- Theorems about cgroups at one file system, with a leaf that is busy for some sleeps.
use mesh_supervisor.Prelude.{
  if◌then◌else◌, nat_eq, ℕ, zero, suc, ◌≡◌, refl, Bool, true, false, Option, none, some, arith,
}
use mesh_supervisor.Cgroup.Counters.{usage_reads}
use mesh_supervisor.Text.{to_digits, text, Text}
use mesh_supervisor.Cgroup.Paths.{self_cgroup, mount, same_text, join, same_path, FilePath}
use mesh_supervisor.Cgroup.{usage, Fs, leaf_of}
use mesh_supervisor.Cgroup.Removal.{IsRemoving}

-- How many sleeps the processes need to go, and whether the directory is there.
pub data Leaf : Type 0 where
  leaf : ℕ → Bool → Leaf

abbrev pub present : Leaf → Bool
present (leaf n there) = there

abbrev remove_leaf : Leaf → Leaf × Bool
remove_leaf (leaf n false) = (leaf n false, false)
remove_leaf (leaf zero true) = (leaf 0 false, true)
remove_leaf (leaf (suc n) true) = (leaf (suc n) true, false)

abbrev slept : Leaf → Leaf
slept (leaf zero there) = leaf 0 there
slept (leaf (suc n) there) = leaf n there

abbrev pub group : FilePath
group = join mount (text "mesh-supervisor")

abbrev slice : FilePath
slice = join mount (text "user.slice")

abbrev contents : FilePath → Option Text
contents path =
    if same_path path self_cgroup
    then some (text "0::/user.slice/app.scope\n")
    else if same_path path (join slice (text "cgroup.subtree_control"))
    then some (text "cpu memory pids\n")
    else if same_path path (join (leaf_of group 7) (text "memory.current"))
    then some (text "4096\n")
    else if same_path path (join (leaf_of group 7) (text "cpu.stat"))
    then some (text "usage_usec 1500\nuser_usec 900\n")
    else none

abbrev pub leaf_fs : Fs
leaf_fs = record {
  State = Leaf;
  create_dir = λ dir s. (s, true);
  write = λ file bytes s. (s, true);
  can_open = λ file s. true;
  read_to_string = λ file s. contents file;
  read_dir = λ dir s. none;
  remove_dir = λ dir s. remove_leaf s;
  is_there = λ dir s. present s;
  sleep = slept;
}

pub leaf_fs-IsRemoving : IsRemoving leaf_fs
leaf_fs-IsRemoving = record { gone = λ dir. gone; unchanged = λ dir. unchanged }
  where
    gone : (s : Leaf) → (remove_leaf s).1 ≡ true → present (remove_leaf s).0 ≡ false
    gone (leaf n false) e = refl
    gone (leaf zero true) e = refl
    gone (leaf (suc n) true) e = cc

    unchanged : (s : Leaf) → (remove_leaf s).1 ≡ false → (remove_leaf s).0 ≡ s
    unchanged (leaf n false) e = refl
    unchanged (leaf zero true) e = cc
    unchanged (leaf (suc n) true) e = refl

abbrev pub busy_leaf : Leaf
busy_leaf = leaf 3 true

usage_reads_example :
    usage leaf_fs group 7 busy_leaf ≡ some (record { mem_bytes = 4096; cpu_usec = 1500 })
unfolding same_path same_text to_digits
usage_reads_example =
    usage_reads leaf_fs group 7 busy_leaf 4096 1500 (text "user_usec 900\n") (omega arith)
      (omega arith) refl refl
