-- ===== src/Process/Launch/Child.antt =====
-- src/process.rs: `launch_child` with the cgroup leaf (src/cgroup.rs) and the sandbox
-- (src/sandbox.rs) that it makes for the child.
use mesh_supervisor.Cgroup
use mesh_supervisor.Sandbox.{new_sandbox, Syscall, Kernel, Sandbox, apply}
use mesh_supervisor.Prelude.{
  if◌then◌else◌, nat_eq, All, Result, is_some, ok, err, ℕ, ◌^◌, ◌<◌, ◌≡◌, subst, Bool, true, false,
  ◌&&◌, Option, none, some, List, [],
}
use mesh_supervisor.Text.{Text}
use mesh_supervisor.Proto.{Spec, Handle}
use mesh_supervisor.Sandbox.Order.{apply_lem, Follows, IsGranted, plan}
use mesh_supervisor.Cgroup.Paths.{FilePath}
use mesh_supervisor.Cgroup.{kill_dir, leaf_of, create_leaf, Fs}
use mesh_supervisor.Cgroup.Removal.{remove_reaps, after_sleeps, IsRemoving}

-- The process that `command.spawn` forks: its ids, what the kernel answers to its calls, and
-- whether the program is there to be executed.
pub record Fork : Type 0 where
  pub pid : ℕ
  pub uid : ℕ
  pub gid : ℕ
  pub kernel : Kernel
  pub executes : Bool

abbrev pub is_ok : {E A : Type 0} → Result E A → Bool
is_ok (ok a) = true
is_ok (err e) = false

-- `command.spawn`: the calls before exec, and whether the child runs its program. `none` is a fork
-- that fails.
unfoldable pub spawn_sandboxed : Sandbox → Option Fork → List Syscall × Bool
spawn_sandboxed sandbox none = ([], false)
spawn_sandboxed sandbox (some f) =
    let (calls, r) = apply sandbox f.pid f.uid f.gid f.kernel in (calls, is_ok r && f.executes)

module _ (fs : Fs) where
  abbrev pub leaf_for : Option FilePath → Handle → Spec → fs.State → fs.State × Option FilePath
  leaf_for none id spec s = (s, none)
  leaf_for (some parent) id spec s = create_leaf fs parent id spec.limits s

  abbrev pub without_leaf : Option FilePath → Handle → fs.State → fs.State
  without_leaf none id s = s
  without_leaf (some parent) id s = Cgroup.remove fs parent id s

  -- `launch_child` up to the child's start, with the cgroups' parent, if there is one, and the
  -- directory to hide: the file system after it, the child's calls, and whether it runs.
  unfoldable pub launch_sandboxed :
      Option FilePath
      → Handle
      → Spec
      → Option Text
      → Option Fork
      → fs.State
      → fs.State × List Syscall × Bool
  unfolding spawn_sandboxed
  launch_sandboxed cgroups id spec hide fork s =
      let (s', procs) = leaf_for cgroups id spec s in
      let (calls, runs) =
        spawn_sandboxed (new_sandbox spec.limits spec.isolate (is_some procs) hide) fork in
      (if runs then s' else without_leaf cgroups id s', calls, runs)

  -- The restrictions that a spec asks for: its own limits on memory and CPU time, the leaf if it
  -- could be made, and if it is isolated, namespaces and the directory to hide.
  abbrev pub sandbox_for : Option FilePath → Handle → Spec → Option Text → fs.State → Sandbox
  sandbox_for cgroups id spec hide s = record {
    memory = spec.limits.memory;
    cpu = spec.limits.cpu;
    cgroup_procs = is_some (leaf_for cgroups id spec s).1;
    isolate = spec.isolate;
    store_dir = if spec.isolate then hide else none;
  }

  runs_restricted :
      (sandbox : Sandbox) (f : Fork)
      → f.uid < 2 ^ 32
      → f.gid < 2 ^ 32
      → (spawn_sandboxed sandbox (some f)).1 ≡ true
      → ((spawn_sandboxed sandbox (some f)).0 ≡ plan sandbox f.pid f.uid f.gid)
        × All (IsGranted f.kernel) (plan sandbox f.pid f.uid f.gid)
  unfolding spawn_sandboxed
  runs_restricted sandbox f hu hg runs =
      by_outcome (apply sandbox f.pid f.uid f.gid f.kernel)
        (apply_lem sandbox f.pid f.uid f.gid f.kernel hu hg) runs
    where
      by_outcome :
          (outcome : List Syscall × Result ℕ (Unit {0}))
          → Follows f.kernel (plan sandbox f.pid f.uid f.gid) outcome
          → (is_ok outcome.1 && f.executes) ≡ true
          → (outcome.0 ≡ plan sandbox f.pid f.uid f.gid)
            × All (IsGranted f.kernel) (plan sandbox f.pid f.uid f.gid)
      by_outcome (calls, ok u) (same, granted) h =
          (same, subst (All (IsGranted f.kernel)) same granted)
      by_outcome (calls, err e) follows h = cc

  -- A child that `launch_child` starts has made, before it executes its program, the calls that its
  -- spec asks for, in order, and each was granted: the signal at its parent's death, the spec's limits on
  -- memory and CPU time, the cgroup leaf if there is one, and for an isolated one the namespaces and
  -- the hidden directory. The limit on processes is the leaf's. `uid` and `gid` are below `2 ^ 32`.
  pub launch_restricts :
      (cgroups : Option FilePath) (id : Handle) (spec : Spec) (hide : Option Text) (f : Fork)
      (s : fs.State)
      → f.uid < 2 ^ 32
      → f.gid < 2 ^ 32
      → (launch_sandboxed cgroups id spec hide (some f) s).2 ≡ true
      → ((launch_sandboxed cgroups id spec hide (some f) s).1
          ≡ plan (sandbox_for cgroups id spec hide s) f.pid f.uid f.gid)
        × All (IsGranted f.kernel) (plan (sandbox_for cgroups id spec hide s) f.pid f.uid f.gid)
  unfolding launch_sandboxed new_sandbox
  launch_restricts cgroups id spec hide f s hu hg runs =
      runs_restricted (sandbox_for cgroups id spec hide s) f hu hg runs

module _ (fs : Fs) (laws : IsRemoving fs) where
  -- A launch that fails leaves no leaf, if the kernel lets it be removed within half a second.
  pub launch_cleans :
      (parent : FilePath) (id : Handle) (spec : Spec) (hide : Option Text) (fork : Option Fork)
      (k : ℕ) (s : fs.State)
      → (launch_sandboxed fs (some parent) id spec hide fork s).2 ≡ false
      → k < 50
      → (fs.remove_dir (leaf_of parent id) (
          after_sleeps fs k
            (kill_dir fs (leaf_of parent id) (create_leaf fs parent id spec.limits s).0))).1
        ≡ true
      → fs.is_there (leaf_of parent id) (launch_sandboxed fs (some parent) id spec hide fork s).0
        ≡ false
  unfolding launch_sandboxed
  launch_cleans parent id spec hide fork k s failed h e =
      rw failed (remove_reaps fs laws parent id k (create_leaf fs parent id spec.limits s).0 h e)
