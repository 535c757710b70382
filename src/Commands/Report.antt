-- ===== src/Commands/Report.antt =====
-- src/commands.rs: the subcommands that call a supervisor, and what they report of its response. A
-- report stands for the line that is logged.
use mesh_supervisor.Proto
use mesh_supervisor.Text.{text, Text, to_string}
use mesh_supervisor.Prelude.{
  nat_eq, Result, ◌>>=◌, ℤ, ok, err, ℕ, ◌*◌, ◌/◌, String, Option, none, some, List, ◌++◌, map,
}
use mesh_supervisor.Proto.{
  ProcState, ControlError, Request, Response, ProcInfo, Usage, Handle, Spec,
}

pub data Subcommand : Type 0 where
  run_spawn : Spec → Subcommand
  run_list : Subcommand
  run_query : Handle → Subcommand
  run_signal : Handle → ℤ → Subcommand
  run_stop run_forget : Handle → Subcommand

-- One process as `list` and `query` show it.
pub record Line : Type 0 where
  pub handle : Handle
  pub pid : ℕ
  pub state : ProcState
  pub mem : Text
  pub restarts : ℕ

-- `surprise` is the warning that a response is unexpected.
pub data Report : Type 0 where
  launched : Handle → ℕ → Report
  processes : List Line → Report
  one_process : Line → Report
  done : Handle → Report
  failed : String → ControlError → Report
  surprise : Response → Report

unfoldable pub mem_str : Option Usage → Text
mem_str none = text "-"
mem_str (some u) = to_string (u.mem_bytes / (1024 * 1024)) ++ text "MiB"

unfoldable pub line_of : ProcInfo → Line
unfolding mem_str
line_of p = record {
  handle = p.handle;
  pid = p.pid;
  state = p.state;
  mem = mem_str p.usage;
  restarts = p.restarts;
}

unfoldable pub report_failure : String → Response → Report
report_failure verb (Proto.error e) = failed verb e
report_failure verb other = surprise other

unfoldable pub report_spawn : Response → Report
unfolding report_failure
report_spawn (Proto.spawned id pid) = launched id pid
report_spawn other = report_failure "spawn" other

unfoldable pub report_list : Response → Report
unfolding report_failure line_of
report_list (Proto.listed procs) = processes (map line_of procs)
report_list other = report_failure "list" other

unfoldable pub report_query : Response → Report
unfolding report_failure line_of
report_query (Proto.status i) = one_process (line_of i)
report_query other = report_failure "query" other

-- `signal`, `stop` and `forget` await an `Ack`.
unfoldable pub report_ack : String → Handle → Response → Report
unfolding report_failure
report_ack verb id Proto.ack = done id
report_ack verb id other = report_failure verb other

unfoldable pub request_of : Subcommand → Request
request_of (run_spawn spec) = Proto.spawn spec
request_of run_list = Proto.list
request_of (run_query id) = Proto.query id
request_of (run_signal id sig) = Proto.signal id sig
request_of (run_stop id) = Proto.stop id
request_of (run_forget id) = Proto.forget id

unfoldable pub report_of : Subcommand → Response → Report
unfolding report_spawn report_list report_query report_ack
report_of (run_spawn spec) resp = report_spawn resp
report_of run_list resp = report_list resp
report_of (run_query id) resp = report_query resp
report_of (run_signal id sig) resp = report_ack "signal" id resp
report_of (run_stop id) resp = report_ack "stop" id resp
report_of (run_forget id) resp = report_ack "forget" id resp

-- A subcommand, given `client_call`.
unfoldable pub run : {E : Type 0} → (Request → Result E Response) → Subcommand → Result E Report
unfolding request_of report_of
run client_call cmd = do resp ← client_call (request_of cmd); ok (report_of cmd resp)

-- What the two subcommands that stream report, and return: `stdin` reports an error and ends well
-- all the same, `subscribe` passes it on.
pub data StreamReport (E : Type 0) : Type 0 where
  stdin_delivered stream_ended : Handle → StreamReport E
  stream_failed : E → StreamReport E

unfoldable pub run_stdin :
    {E : Type 0} → (Handle → Result E (Unit {0})) → Handle → StreamReport E × Result E (Unit {0})
run_stdin stdin_stream id = elim (stdin_stream id) [
  | ok u ↦ (stdin_delivered id, ok tt)
  | err e ↦ (stream_failed e, ok tt)
]

unfoldable pub run_subscribe :
    {E : Type 0} → (Handle → Result E (Unit {0})) → Handle → StreamReport E × Result E (Unit {0})
run_subscribe subscribe id = elim (subscribe id) [
  | ok u ↦ (stream_ended id, ok u)
  | err e ↦ (stream_failed e, err e)
]
