-- ===== src/Process/Stdin.antt =====
-- src/process.rs: `pipe_stdin`. A stdin lock that still holds its pipe is open; the copy of the
-- client's bytes is outside the model, but for whether it succeeds.
use mesh_supervisor.Prelude.{
  nat_beq, if◌then◌else◌, Bool-cases, nat_eq, Result, ok, err, ℕ, String, ◌≡◌, refl, inl, inr, Bool,
  false, ◌||◌, List, [], ◌∷◌, arith,
}
use mesh_supervisor.Proto.{Handle, ControlError, bad_request}
use mesh_supervisor.Process.State.{ProcEntry, Stdin, closed, pipe, Manager}
use mesh_supervisor.Process.Table.{entry_of}
use mesh_supervisor.Store.Database.{Disk}

-- The open pipes.
abbrev pub Pipes : Type 0
Pipes = List ℕ

unfoldable pub is_open : ℕ → Pipes → Bool
is_open n [] = false
is_open n (p ∷ ps) = nat_beq p n || is_open n ps

-- `*guard = None`
unfoldable pub close : ℕ → Pipes → Pipes
close n [] = []
close n (p ∷ ps) = let rest = close n ps in if nat_beq p n then rest else p ∷ rest

abbrev pub unavailable_message : String
unavailable_message = "stdin unavailable"

abbrev pub broken_message : String
broken_message = "stdin pipe closed"

-- The pipe is closed after the copy, whether it reached the end of the stream or broke.
unfoldable pub copy_into : Pipes → Stdin → Bool → Pipes × Result ControlError (Unit {0})
unfolding is_open close
copy_into pipes closed copied = (pipes, err (bad_request unavailable_message))
copy_into pipes (pipe n) copied =
    if is_open n pipes
    then (close n pipes, if copied then ok tt else err (bad_request broken_message))
    else (pipes, err (bad_request unavailable_message))

abbrev pub at_entry :
    Pipes → Bool → Result ControlError ProcEntry → Pipes × Result ControlError (Unit {0})
at_entry pipes copied (ok entry) = copy_into pipes entry.stdin copied
at_entry pipes copied (err e) = (pipes, err e)

module _ (d : Disk) where
  unfoldable pub pipe_stdin :
      Manager d → Pipes → Handle → Bool → Pipes × Result ControlError (Unit {0})
  pipe_stdin m pipes id copied = at_entry pipes copied (entry_of m.procs id)

is_open-close : (n : ℕ) (ps : Pipes) → is_open n (close n ps) ≡ false
unfolding is_open close
is_open-close n [] = refl
is_open-close n (p ∷ ps) = ground (arith, is_open-close n ps)

copy_into_twice :
    (pipes : Pipes) (s : Stdin) (copied copied' : Bool)
    → (copy_into (copy_into pipes s copied).0 s copied').1 ≡ err (bad_request unavailable_message)
unfolding copy_into
copy_into_twice pipes closed copied copied' = refl
copy_into_twice pipes (pipe n) copied copied' = elim (Bool-cases (is_open n pipes)) [
  | inl open_pipe ↦ rw (open_pipe, is_open-close n pipes) refl
  | inr shut ↦ rw (shut, shut) refl
]

module _ (d : Disk) where
  -- One stream feeds a tracked process's stdin to its end: a second `pipe_stdin` on the same
  -- entry, after one that succeeded, broke or was refused, finds the pipe closed.
  pub pipe_stdin_once :
      (m : Manager d) (pipes : Pipes) (id : Handle) (e : ProcEntry) (copied copied' : Bool)
      → entry_of m.procs id ≡ ok e
      → (pipe_stdin d m (pipe_stdin d m pipes id copied).0 id copied').1
        ≡ err (bad_request unavailable_message)
  unfolding pipe_stdin
  pipe_stdin_once m pipes id e copied copied' at =
      rw at (copy_into_twice pipes e.stdin copied copied')
