-- ===== src/Sandbox/Order.antt =====
-- The calls that `apply` of src/sandbox.rs makes, in order: a child that reaches exec has all of its
-- restrictions, and one that does not has failed at a call.
use mathlib.Core.List.{append_assoc}
use mesh_supervisor.Prelude.{
  if◌then◌else◌, All, Result, ok, err, ℕ, ◌^◌, ◌<◌, ◌≡◌, refl, sym, ap, subst, ◌∙◌, ◌⊎◌, inl, inr,
  Bool, true, false, Option, none, some, List, [], ◌∷◌, ◌++◌,
}
use mesh_supervisor.Sandbox.Formatting.{format_into_whole}
use mesh_supervisor.Text.{to_string, text, Text}
use mesh_supervisor.Sandbox.{
  write_map, enter_namespaces, write_file, mount_tmpfs, mount_private, unshare, write_pid, cpu_time,
  address_space, write_fd, outcome, done, setrlimit, when_some, Sys, then_run, open_file, close_fd,
  call, set_pdeathsig, Kernel, Syscall, Sandbox, apply, close_after, ◌>>◌,
}

-- The calls of one file written.
abbrev pub writing : Text → Text → List Syscall
writing path bytes = open_file path ∷ write_fd path bytes ∷ close_fd path ∷ []

-- The mapping of one id to root.
abbrev pub id_line : ℕ → Text
id_line id = text "0 " ++ (to_string id ++ text " 1\n")

abbrev pub for_some : {A : Type 0} → Option A → (A → List Syscall) → List Syscall
for_some none f = []
for_some (some a) f = f a

abbrev pub when : Bool → List Syscall → List Syscall
when b calls = if b then calls else []

-- The calls that enter the namespaces.
abbrev pub namespace_plan : ℕ → ℕ → Option Text → List Syscall
namespace_plan uid gid store_dir =
    (unshare ∷ [])
    ++ (writing (text "/proc/self/setgroups") (text "deny")
        ++ (writing (text "/proc/self/uid_map") (id_line uid)
            ++ (writing (text "/proc/self/gid_map") (id_line gid)
                ++ ((mount_private ∷ []) ++ for_some store_dir (λ dir. mount_tmpfs dir ∷ [])))))

-- All calls of a child that is restricted as its sandbox says.
abbrev pub plan : Sandbox → ℕ → ℕ → ℕ → List Syscall
plan s pid uid gid =
    (set_pdeathsig ∷ [])
    ++ (for_some s.memory (λ bytes. setrlimit address_space bytes ∷ [])
        ++ (for_some s.cpu (λ secs. setrlimit cpu_time secs ∷ [])
            ++ (when s.cgroup_procs (write_pid (to_string pid) ∷ [])
                ++ when s.isolate (namespace_plan uid gid s.store_dir))))

-- Every call but the closing of a file has succeeded.
abbrev pub IsGranted : Kernel → Syscall → Type 0
IsGranted k (close_fd path) = Unit
IsGranted k c = k c ≡ none

abbrev pub IsIn : Syscall → List Syscall → Type 0
IsIn c [] = ⊥
IsIn c (d ∷ ds) = (c ≡ d) ⊎ IsIn c ds

-- What came of the calls `plan`: all were made and granted, or those made are the first of them and
-- one of those failed with the errno returned.
abbrev pub Follows : Kernel → List Syscall → List Syscall × Result ℕ (Unit {0}) → Type 0
Follows k expected (made, ok u) = (made ≡ expected) × All (IsGranted k) made
Follows k expected (made, err e) =
    (rest : List Syscall) × (made ++ rest ≡ expected)
    × ((failed : Syscall) × IsIn failed made × (k failed ≡ some e))

All-append :
    (k : Kernel) (xs ys : List Syscall)
    → All (IsGranted k) xs
    → All (IsGranted k) ys
    → All (IsGranted k) (xs ++ ys)
All-append k [] ys a b = b
All-append k (x ∷ xs) ys (a, more) b = (a, All-append k xs ys more b)

IsIn-append : (c : Syscall) (xs ys : List Syscall) → IsIn c ys → IsIn c (xs ++ ys)
IsIn-append c [] ys h = h
IsIn-append c (x ∷ xs) ys h = inr (IsIn-append c xs ys h)

then_run-Follows :
    (k : Kernel) (p q : List Syscall) (run : List Syscall × Result ℕ (Unit {0}))
    (next : Unit {0} → List Syscall × Result ℕ (Unit {0}))
    → Follows k p run
    → Follows k q (next tt)
    → Follows k (p ++ q) (then_run run next)
then_run-Follows k p q (made, err e) next (rest, e1, failed) later =
    (rest ++ q, sym (append_assoc made rest q) ∙ ap (λ l. l ++ q) e1, failed)
then_run-Follows k p q (made, ok tt) next (same, granted) later = more (next tt) later
  where
    more :
        (run : List Syscall × Result ℕ (Unit {0}))
        → Follows k q run
        → Follows k (p ++ q) (then_run (made, ok tt) (λ u. run))
    more (made', ok u) (same', granted') = (
      ap (λ l. l ++ made') same ∙ ap (λ l. p ++ l) same',
      All-append k made made' granted granted',
    )
    more (made', err e) (rest, e1, (failed, isin, why)) = (
      rest,
      append_assoc made made' rest ∙ ap (λ l. l ++ (made' ++ rest)) same ∙ ap (λ l. p ++ l) e1,
      (failed, IsIn-append failed made made' isin, why),
    )

call-Follows :
    (k : Kernel) (c : Syscall) → (k c ≡ none → IsGranted k c) → Follows k (c ∷ []) (call c k)
call-Follows k c granted = by_answer (k c) refl
  where
    by_answer : (answer : Option ℕ) → k c ≡ answer → Follows k (c ∷ []) (c ∷ [], outcome answer)
    by_answer none e = (refl, (granted e, tt))
    by_answer (some errno) e = ([], refl, (c, inl refl, e))

close_after-Follows :
    (k : Kernel) (path : Text) (c : Syscall)
    → (k c ≡ none → IsGranted k c)
    → Follows k (c ∷ close_fd path ∷ []) (close_after path (call c) k)
close_after-Follows k path c granted = by_answer (k c) refl
  where
    by_answer :
        (answer : Option ℕ)
        → k c ≡ answer
        → Follows k (c ∷ close_fd path ∷ []) (c ∷ close_fd path ∷ [], outcome answer)
    by_answer none e = (refl, (granted e, (tt, tt)))
    by_answer (some errno) e = ([], refl, (c, inl refl, e))

record Does (k : Kernel) (calls : List Syscall) (m : Sys (Unit {0})) : Type 0 where
  pub follows : Follows k calls (m k)

infixr 4 ◌and_then◌
◌and_then◌ :
    {k : Kernel} {p q : List Syscall} {m n : Sys (Unit {0})}
    → Does k p m
    → Does k q n
    → Does k (p ++ q) (m >> n)
◌and_then◌ {k} {p} {q} {m} {n} first later = record {
  follows = then_run-Follows k p q (m k) (λ u. n k) first.follows later.follows;
}

call-Does : (k : Kernel) (c : Syscall) → (k c ≡ none → IsGranted k c) → Does k (c ∷ []) (call c)
call-Does k c granted = record { follows = call-Follows k c granted }

write_file-Does :
    (k : Kernel) (path bytes : Text) → Does k (writing path bytes) (write_file path bytes)
unfolding write_file
write_file-Does k path bytes =
    call-Does k (open_file path) (λ h. h)
    and_then record { follows = close_after-Follows k path (write_fd path bytes) (λ h. h) }

for_some-Does :
    {A : Type 0} (k : Kernel) (o : Option A) (f : A → Syscall)
    → ((a : A) → k (f a) ≡ none → IsGranted k (f a))
    → Does k (for_some o (λ a. f a ∷ [])) (when_some o (λ a. call (f a)))
for_some-Does k none f granted = record { follows = (refl, tt) }
for_some-Does k (some a) f granted = record { follows = call-Follows k (f a) (granted a) }

when-Does :
    {k : Kernel} {p : List Syscall} {m : Sys (Unit {0})} (b : Bool)
    → Does k p m
    → Does k (when b p) (if b then m else done)
when-Does true all = record { follows = all.follows }
when-Does false all = record { follows = (refl, tt) }

write_map-Does :
    (k : Kernel) (path : Text) (id : ℕ)
    → id < 2 ^ 32
    → Does k (writing path (id_line id)) (write_map path id)
unfolding write_map
write_map-Does k path id h =
    subst (λ line. Does k (writing path line) (write_map path id)) (format_into_whole id h)
      (write_file-Does k path _)

enter_namespaces-Does :
    (k : Kernel) (uid gid : ℕ) (dir : Option Text)
    → uid < 2 ^ 32
    → gid < 2 ^ 32
    → Does k (namespace_plan uid gid dir) (enter_namespaces uid gid dir)
unfolding enter_namespaces
enter_namespaces-Does k uid gid dir hu hg =
    call-Does k unshare (λ h. h)
    and_then write_file-Does k (text "/proc/self/setgroups") (text "deny")
    and_then write_map-Does k (text "/proc/self/uid_map") uid hu
    and_then write_map-Does k (text "/proc/self/gid_map") gid hg
    and_then call-Does k mount_private (λ h. h)
    and_then for_some-Does k dir mount_tmpfs (λ d h. h)

-- Of the calls of `plan` the child makes, in this order, either all, each but the closing of a file
-- being granted, or the first of them up to one that fails, whose errno `apply` returns. `uid` and
-- `gid` are below `2 ^ 32`.
pub apply_lem :
    (s : Sandbox) (pid uid gid : ℕ) (k : Kernel)
    → uid < 2 ^ 32
    → gid < 2 ^ 32
    → Follows k (plan s pid uid gid) (apply s pid uid gid k)
unfolding apply
apply_lem s pid uid gid k hu hg =
    let all : Does k (plan s pid uid gid) (apply s pid uid gid) =
      call-Does k set_pdeathsig (λ h. h)
      and_then for_some-Does k s.memory (setrlimit address_space) (λ a h. h)
      and_then for_some-Does k s.cpu (setrlimit cpu_time) (λ a h. h)
      and_then when-Does s.cgroup_procs (call-Does k (write_pid (to_string pid)) (λ h. h))
      and_then when-Does s.isolate (enter_namespaces-Does k uid gid s.store_dir hu hg) in
    all.follows
