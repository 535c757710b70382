-- ===== src/Process/Record.antt =====
-- src/process.rs: `Record`, the durable description of a process, and what a reload makes of it.
use mesh_supervisor.Prelude.{ℕ, String, List}
use mesh_supervisor.Proto.{ProcState, running, exited, stale}

pub record Record : Type 0 where
  pub cmd : String
  pub args : List String
  pub env : List (String × String)
  pub pid : ℕ
  pub status : ProcState

-- On reload a running child is dead: it died with the old supervisor.
unfoldable pub reloaded : ProcState → ProcState
reloaded running = stale
reloaded (exited code) = exited code
reloaded stale = stale

abbrev pub with_status : ProcState → Record → Record
with_status s rec = record rec { status = s }
