-- ===== src/Sandbox.antt =====
-- src/sandbox.rs: what a child does between fork and exec, on Linux. A system call either fails with
-- an errno or succeeds, as the kernel, a parameter, decides; the calls made are kept in order.
pub mod Formatting
pub mod Order
use mesh_supervisor.Prelude.{
  leb, if◌then◌else◌, length, Result, ok, err, ℕ, ◌+◌, Bool, Option, none, some, List, [], ◌∷◌,
  ◌++◌,
}
use mesh_supervisor.Proto.{Limits}
use mesh_supervisor.Text.{Text, to_string, text}

pub data Resource : Type 0 where
  address_space cpu_time : Resource

-- The calls of `Sandbox::apply`. `mount_private` is the mount of "none" on "/" with MS_REC and
-- MS_PRIVATE, `mount_tmpfs` that of a tmpfs over a directory.
pub data Syscall : Type 0 where
  set_pdeathsig : Syscall
  setrlimit : Resource → ℕ → Syscall
  write_pid : Text → Syscall
  unshare : Syscall
  open_file : Text → Syscall
  write_fd : Text → Text → Syscall
  close_fd : Text → Syscall
  mount_private : Syscall
  mount_tmpfs : Text → Syscall

-- The errno of a call that fails.
abbrev pub Kernel : Type 0
Kernel = Syscall → Option ℕ

-- A computation in the child: the calls it makes, and its result.
abbrev pub Sys : Type 0 → Type 0
Sys A = Kernel → List Syscall × Result ℕ A

abbrev pub then_run :
    {A B : Type 0}
    → List Syscall × Result ℕ A
    → (A → List Syscall × Result ℕ B)
    → List Syscall × Result ℕ B
then_run (calls, ok a) f = let (more, r) = f a in (calls ++ more, r)
then_run (calls, err e) f = (calls, err e)

infixl 5 ◌>>=◌ ◌>>◌
abbrev pub ◌>>=◌ : {A B : Type 0} → Sys A → (A → Sys B) → Sys B
◌>>=◌ m f k = then_run (m k) (λ a. f a k)

abbrev pub ◌>>◌ : {A B : Type 0} → Sys A → Sys B → Sys B
m >> n = m >>= λ a. n

abbrev pub done : Sys (Unit {0})
done k = ([], ok tt)

abbrev pub outcome : Option ℕ → Result ℕ (Unit {0})
outcome none = ok tt
outcome (some e) = err e

-- One call with `?`.
abbrev pub call : Syscall → Sys (Unit {0})
call c k = (c ∷ [], outcome (k c))

abbrev pub when_some : {A : Type 0} → Option A → (A → Sys (Unit {0})) → Sys (Unit {0})
when_some none f = done
when_some (some a) f = f a

-- A descriptor is closed whether the write to it succeeded or not.
abbrev pub close_after : Text → Sys (Unit {0}) → Sys (Unit {0})
close_after path m k = let (calls, r) = m k in (calls ++ (close_fd path ∷ []), r)

-- `write_file`
unfoldable pub write_file : Text → Text → Sys (Unit {0})
write_file path bytes = call (open_file path) >> close_after path (call (write_fd path bytes))

-- `StackBuf`: a sink with room for 32 bytes; a piece that does not fit is refused whole.
abbrev pub capacity : ℕ
capacity = 32

unfoldable pub write_str : Option Text → Text → Option Text
write_str none piece = none
write_str (some buf) piece =
    if leb (length buf + length piece) capacity then some (buf ++ piece) else none

-- `write_map`: the pieces of "0 {id} 1\n" in turn. `let _ =` drops the error of a sink that is
-- full, and what is in the sink by then is written.
unfoldable pub format_into : Text → List Text → Text
unfolding write_str
format_into buf [] = buf
format_into buf (piece ∷ pieces) = elim (write_str (some buf) piece) [
  | none ↦ buf
  | some buf' ↦ format_into buf' pieces
]

unfoldable pub write_map : Text → ℕ → Sys (Unit {0})
unfolding format_into write_file
write_map path id =
    write_file path (format_into [] (text "0 " ∷ to_string id ∷ text " 1" ∷ text "\n" ∷ []))

-- `enter_namespaces`, for a process of this user and group.
unfoldable pub enter_namespaces : ℕ → ℕ → Option Text → Sys (Unit {0})
unfolding write_file write_map
enter_namespaces uid gid store_dir = do
  call unshare
  write_file (text "/proc/self/setgroups") (text "deny")
  write_map (text "/proc/self/uid_map") uid
  write_map (text "/proc/self/gid_map") gid
  call mount_private
  when_some store_dir (λ dir. call (mount_tmpfs dir))

-- `join_cgroup` writes the child's pid to the leaf's file.
pub record Sandbox : Type 0 where
  pub memory : Option ℕ
  pub cpu : Option ℕ
  pub cgroup_procs : Bool
  pub isolate : Bool
  pub store_dir : Option Text

-- `Sandbox::new`; `hide_dir` is what `store_hide_dir` finds.
unfoldable pub new_sandbox : Limits → Bool → Bool → Option Text → Sandbox
new_sandbox limits isolate cgroup_procs hide_dir = record {
  memory = limits.memory;
  cpu = limits.cpu;
  cgroup_procs = cgroup_procs;
  isolate = isolate;
  store_dir = if isolate then hide_dir else none;
}

-- `apply`, in the child with this pid, user and group.
unfoldable pub apply : Sandbox → ℕ → ℕ → ℕ → Sys (Unit {0})
unfolding enter_namespaces
apply s pid uid gid = do
  call set_pdeathsig
  when_some s.memory (λ bytes. call (setrlimit address_space bytes))
  when_some s.cpu (λ secs. call (setrlimit cpu_time secs))
  if s.cgroup_procs then call (write_pid (to_string pid)) else done
  if s.isolate then enter_namespaces uid gid s.store_dir else done
