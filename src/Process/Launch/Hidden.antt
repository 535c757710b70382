-- ===== src/Process/Launch/Hidden.antt =====
-- src/process.rs: an isolated child of `launch_child`, and the directory of the store that
-- `store_hide_dir` of src/sandbox.rs finds for it.
use mathlib.Core.Option
use mesh_supervisor.Sandbox.{mount_tmpfs, Syscall, Kernel, Sandbox, new_sandbox}
use mesh_supervisor.Sandbox.Order.{IsGranted, plan}
use mesh_supervisor.Prelude.{
  nat_eq, All, ℕ, ◌^◌, ◌<◌, String, ◌≡◌, refl, ap, subst, ◌∙◌, Bool, true, false, Option, none,
  some, List, [], ◌∷◌, ◌++◌, arith,
}
use mesh_supervisor.Text.{Text}
use mesh_supervisor.Proto.{Spec, Handle}
use mesh_supervisor.Cgroup.Paths.{FilePath}
use mesh_supervisor.Cgroup.{Fs}
use mesh_supervisor.Process.Launch.Child.{launch_sandboxed, launch_restricts, sandbox_for, Fork}
use mesh_supervisor.Store.Database.{Disk}
use mesh_supervisor.Store.Files.{
  Files, store_hide_dir, hide, is_nul_free, into_os_string, c_string, parent,
}

-- An isolated child that hides nothing.
abbrev pub unhidden : Sandbox → Sandbox
unhidden s = record s { store_dir = none }

plan-hides :
    (memory cpu : Option ℕ) (cgroup_procs : Bool) (dir : Text) (pid uid gid : ℕ)
    → let s : Sandbox = record {
      memory = memory;
      cpu = cpu;
      cgroup_procs = cgroup_procs;
      isolate = true;
      store_dir = some dir;
    } in
      plan s pid uid gid ≡ plan (unhidden s) pid uid gid ++ mount_tmpfs dir ∷ []
plan-hides none none false dir pid uid gid = refl
plan-hides none none true dir pid uid gid = refl
plan-hides none (some c) false dir pid uid gid = refl
plan-hides none (some c) true dir pid uid gid = refl
plan-hides (some m) none false dir pid uid gid = refl
plan-hides (some m) none true dir pid uid gid = refl
plan-hides (some m) (some c) false dir pid uid gid = refl
plan-hides (some m) (some c) true dir pid uid gid = refl

All-last :
    (k : Kernel) (c : Syscall) (calls : List Syscall)
    → All (IsGranted k) (calls ++ c ∷ [])
    → IsGranted k c
All-last k c [] all = all.0
All-last k c (call ∷ calls) all = All-last k c calls all.1

hide-parent :
    (name : Text) (dir : FilePath)
    → is_nul_free (into_os_string dir) ≡ true
    → hide (some (name ∷ dir)) ≡ some (into_os_string dir)
unfolding hide parent c_string Option.bind
hide-parent name dir e = ground (arith, e)

module _ {d : Disk} (files : Files d) (fs : Fs) where
  hidden_sandbox :
      (cgroups : Option FilePath) (id : Handle) (spec : Spec) (dir : Text) (s : fs.State)
      (pid uid gid : ℕ)
      → spec.isolate ≡ true
      → plan (sandbox_for fs cgroups id spec (some dir) s) pid uid gid
        ≡ plan (sandbox_for fs cgroups id spec none s) pid uid gid ++ mount_tmpfs dir ∷ []
  unfolding new_sandbox
  hidden_sandbox cgroups id spec dir s pid uid gid e =
      rw e (plan-hides spec.limits.memory spec.limits.cpu _ dir pid uid gid)

  -- An isolated child that starts has covered the directory of the store, the parent of the store's
  -- canonical path, by an empty file system: it did so last, after all that it would do with nothing
  -- to hide, and the kernel granted it. The path has a canonical form, without a NUL, when the child
  -- is launched; the ids are below `2 ^ 32`.
  pub store_is_hidden :
      (cgroups : Option FilePath) (id : Handle) (spec : Spec) (f : Fork) (s : fs.State)
      (path : String) (before : files.State) (name : Text) (dir : FilePath)
      → f.uid < 2 ^ 32
      → f.gid < 2 ^ 32
      → spec.isolate ≡ true
      → files.canonicalize path before ≡ some (name ∷ dir)
      → is_nul_free (into_os_string dir) ≡ true
      → let launch =
          launch_sandboxed fs cgroups id spec
            (store_hide_dir files (some path) before)
            (some f)
            s in
        launch.2 ≡ true
        → (launch.1
            ≡ plan (sandbox_for fs cgroups id spec none s) f.pid f.uid f.gid
              ++ mount_tmpfs (into_os_string dir) ∷ [])
          × (f.kernel (mount_tmpfs (into_os_string dir)) ≡ none)
  unfolding store_hide_dir
  store_is_hidden cgroups id spec f s path before name dir hu hg isolate canonical nul runs =
      let found : store_hide_dir files (some path) before ≡ some (into_os_string dir) =
        ap hide canonical ∙ hide-parent name dir nul in
      let (made, granted) =
        launch_restricts fs cgroups id spec (some (into_os_string dir)) f s hu hg
          (subst (λ h. (launch_sandboxed fs cgroups id spec h (some f) s).2 ≡ true) found runs) in
      let same = hidden_sandbox cgroups id spec (into_os_string dir) s f.pid f.uid f.gid isolate in
      (
        ap (λ h. (launch_sandboxed fs cgroups id spec h (some f) s).1) found ∙ made ∙ same,
        All-last f.kernel (mount_tmpfs (into_os_string dir))
            (plan (sandbox_for fs cgroups id spec none s) f.pid f.uid f.gid)
            (subst (All (IsGranted f.kernel)) same granted),
      )
