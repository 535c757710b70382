-- ===== src/Cgroup.antt =====
-- src/cgroup.rs: a cgroup for each child, in the kernel's cgroup file system. The file system is a
-- parameter; an operation returns its state after it. Warnings are left out.
pub mod Paths
pub mod Removal
pub mod Counters
pub mod Parent
use mathlib.Core.Option
use mesh_supervisor.Prelude.{
  if◌then◌else◌, any, ℕ, zero, suc, Bool, not, ◌||◌, Option, none, some, List, [], ◌∷◌,
}
use mesh_supervisor.Cgroup.Paths.{
  without_slash, same_path, join_relative, mount, words, after_colons, same_text, is_below, join,
  self_cgroup, first_line, FilePath,
}
use mesh_supervisor.Proto.{Limits, Handle, Usage}
use mesh_supervisor.Text.{trim, strip_prefix, to_string, parse_u64, lines, Text, text}

-- The calls of `std::fs` and `std::path` that touch the file system. `read_dir` gives the entries
-- that are directories, `sleep` what the kernel and other processes do in the ten milliseconds of a
-- `thread::sleep`.
pub record Fs : Type 1 where
  pub State : Type 0
  pub create_dir : FilePath → State → State × Bool
  pub write : FilePath → Text → State → State × Bool
  pub can_open : FilePath → State → Bool
  pub read_to_string : FilePath → State → Option Text
  pub read_dir : FilePath → State → Option (List FilePath)
  pub remove_dir : FilePath → State → State × Bool
  pub is_there : FilePath → State → Bool
  pub sleep : State → State

abbrev pub group_name : Text
group_name = text "mesh-supervisor"

abbrev pub leaf_of : FilePath → Handle → FilePath
leaf_of parent handle = join parent (to_string handle)

-- `.trim().parse().ok()`, of a text that may be missing.
abbrev pub number_in : Option Text → Option ℕ
number_in none = none
number_in (some s) = parse_u64 (trim s)

-- `l.strip_prefix("usage_usec ")?.trim().parse().ok()`
abbrev pub usage_line : Text → Option ℕ
usage_line l = number_in (strip_prefix (text "usage_usec ") l)

abbrev pub or_else {ℓ} : {A : Type ℓ} → Option A → Option A → Option A
or_else none later = later
or_else (some a) later = some a

-- `find_map`
unfoldable pub find_map {ℓ} : {A B : Type ℓ} → (A → Option B) → List A → Option B
find_map f [] = none
find_map f (x ∷ xs) = or_else (f x) (find_map f xs)

abbrev pub cpu_counter : Option Text → Option ℕ
cpu_counter none = none
cpu_counter (some s) = find_map usage_line (lines s)

abbrev pub both_counters : Option ℕ → Option ℕ → Option Usage
both_counters (some m) (some c) = some (record { mem_bytes = m; cpu_usec = c })
both_counters (some m) none = none
both_counters none c = none

module _ (fs : Fs) where
  -- A limit that is set is written; an error is only logged.
  abbrev pub write_limit : FilePath → Option ℕ → fs.State → fs.State
  write_limit file none s = s
  write_limit file (some n) s = (fs.write file (to_string n) s).0

  -- `create_leaf`: the state, and the `cgroup.procs` that was opened.
  unfoldable pub create_leaf : FilePath → Handle → Limits → fs.State → fs.State × Option FilePath
  create_leaf parent handle limits s =
      let leaf = leaf_of parent handle in
      let (s', created) = fs.create_dir leaf s in
      let capped =
        write_limit (join leaf (text "pids.max")) limits.pids
          (write_limit (join leaf (text "memory.max")) limits.memory s') in
      let procs = join leaf (text "cgroup.procs") in
      if created
      then (capped, if fs.can_open procs capped then some procs else none)
      else (s', none)

  -- `usage`
  unfoldable pub usage : FilePath → Handle → fs.State → Option Usage
  usage parent handle s =
      let leaf = leaf_of parent handle in
      both_counters (number_in (fs.read_to_string (join leaf (text "memory.current")) s))
        (cpu_counter (fs.read_to_string (join leaf (text "cpu.stat")) s))

  -- The rounds that `rmdir_retry` has left.
  unfoldable pub rmdir_rounds : ℕ → FilePath → fs.State → fs.State
  rmdir_rounds zero dir s = s
  rmdir_rounds (suc left) dir s =
      let (s', removed) = fs.remove_dir dir s in
      let rest = rmdir_rounds left dir (fs.sleep s') in
      if removed || not (fs.is_there dir s') then s' else rest

  unfoldable pub rmdir_retry : FilePath → fs.State → fs.State
  unfolding rmdir_rounds
  rmdir_retry dir s = rmdir_rounds 50 dir s

  -- The write of "1" to `cgroup.kill`, whose error is dropped.
  abbrev pub kill_dir : FilePath → fs.State → fs.State
  kill_dir leaf s = (fs.write (join leaf (text "cgroup.kill")) (text "1") s).0

  -- `kill`
  unfoldable pub kill : FilePath → Handle → fs.State → fs.State
  kill parent handle s = kill_dir (leaf_of parent handle) s

  -- `remove`
  unfoldable pub remove : FilePath → Handle → fs.State → fs.State
  unfolding rmdir_retry
  remove parent handle s = rmdir_retry (leaf_of parent handle) (kill_dir (leaf_of parent handle) s)

  unfoldable pub remove_leaves : List FilePath → fs.State → fs.State
  unfolding rmdir_retry
  remove_leaves [] s = s
  remove_leaves (leaf ∷ leaves) s = remove_leaves leaves (rmdir_retry leaf (kill_dir leaf s))

  abbrev pub entries_or_none : Option (List FilePath) → List FilePath
  entries_or_none none = []
  entries_or_none (some leaves) = leaves

  -- `remove_group`, which `shutdown` calls on the parent.
  unfoldable pub remove_group : FilePath → fs.State → fs.State
  unfolding remove_leaves rmdir_retry
  remove_group parent s =
      rmdir_retry parent (remove_leaves (entries_or_none (fs.read_dir parent s)) s)

  abbrev pub text_or_empty : Option Text → Text
  text_or_empty none = []
  text_or_empty (some s) = s

  -- `sc.split_whitespace().any(|c| c == "memory")`
  abbrev pub grants_memory : FilePath → fs.State → Bool
  grants_memory dir s =
      any (λ word. same_text word (text "memory"))
        (words (text_or_empty (fs.read_to_string (join dir (text "cgroup.subtree_control")) s)))

  -- The loop of `parent_with_memory`, from `cur` upwards.
  unfoldable pub nearest_parent : fs.State → FilePath → Option FilePath
  nearest_parent s [] = none
  nearest_parent s (name ∷ parent) =
      let above = nearest_parent s parent in
      if not (is_below mount parent)
      then none
      else if grants_memory parent s
      then some parent
      else if same_path parent mount
      then none
      else above

  -- The directory of our own cgroup, from the text of /proc/self/cgroup.
  unfoldable pub own_dir : Text → Option FilePath
  own_dir self_cg =
      Option.map (λ rel. join_relative mount (without_slash (trim rel)))
        (Option.bind (first_line (lines self_cg)) after_colons)

  unfoldable pub parent_with_memory : fs.State → Option FilePath
  unfolding own_dir nearest_parent
  parent_with_memory s =
      Option.bind (Option.bind (fs.read_to_string self_cgroup s) own_dir) (nearest_parent s)

  -- `detect`, from the parent that was found.
  unfoldable pub delegate : FilePath → fs.State → fs.State × Option FilePath
  unfolding remove_group
  delegate host s =
      let parent = join host group_name in
      let (s', created) = fs.create_dir parent (remove_group parent s) in
      let (s'', delegated) =
        fs.write (join parent (text "cgroup.subtree_control")) (text "+memory +pids") s' in
      if not created
      then (s', none)
      else if delegated
      then (s'', some parent)
      else ((fs.remove_dir parent s'').0, none)

  abbrev pub detect_at : Option FilePath → fs.State → fs.State × Option FilePath
  detect_at none s = (s, none)
  detect_at (some host) s = delegate host s

  -- `detect`: the parent of the leaves, if cgroups can be used.
  unfoldable pub detect : fs.State → fs.State × Option FilePath
  unfolding parent_with_memory delegate
  detect s = detect_at (parent_with_memory s) s
