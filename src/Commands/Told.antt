-- ===== src/Commands/Told.antt =====
-- What an operator of src/commands.rs is to be told of each response to a subcommand.
use mesh_supervisor.Proto
use mesh_supervisor.Prelude.{◌/◌, String, ◌≡◌, refl, Option, none, some, List, [], ◌∷◌, ◌++◌, map}
use mesh_supervisor.Proto.{ProcInfo, Usage, Request, Response}
use mesh_supervisor.Text.{Text, text, to_string}
use mesh_supervisor.Commands.Expected.{Answers}
use mesh_supervisor.Commands.Report.{
  run_list, run_forget, run_stop, run_signal, run_query, run_spawn, Subcommand, Report, Line,
  launched, processes, one_process, done, failed, report_of, request_of, report_spawn, report_list,
  report_query, report_ack, report_failure, line_of, mem_str,
}

abbrev pub verb : Subcommand → String
verb (run_spawn spec) = "spawn"
verb run_list = "list"
verb (run_query id) = "query"
verb (run_signal id sig) = "signal"
verb (run_stop id) = "stop"
verb (run_forget id) = "forget"

-- What each command is to ask of the supervisor.
abbrev pub asked : Subcommand → Request
asked (run_spawn spec) = Proto.spawn spec
asked run_list = Proto.list
asked (run_query id) = Proto.query id
asked (run_signal id sig) = Proto.signal id sig
asked (run_stop id) = Proto.stop id
asked (run_forget id) = Proto.forget id

-- Whole mebibytes, or a dash.
abbrev pub IsMem : Option Usage → Text → Type 0
IsMem none t = t ≡ text "-"
IsMem (some u) t = t ≡ to_string (u.mem_bytes / 1048576) ++ text "MiB"

-- A line shows its process.
pub record IsLine (i : ProcInfo) (l : Line) : Type 0 where
  pub handle : l.handle ≡ i.handle
  pub pid : l.pid ≡ i.pid
  pub state : l.state ≡ i.state
  pub mem : IsMem i.usage l.mem
  pub restarts : l.restarts ≡ i.restarts

abbrev pub AreLines : List ProcInfo → List Line → Type 0
AreLines [] [] = Unit {0}
AreLines (i ∷ procs) (l ∷ lines) = IsLine i l × AreLines procs lines
AreLines _ _ = ⊥

-- An error is told as the failure of the command, and a success as what was done to whom. Nothing
-- else is told.
abbrev pub Tells : Subcommand → Response → Report → Type 0
Tells cmd (Proto.error e) r = r ≡ failed (verb cmd) e
Tells (run_spawn spec) (Proto.spawned id pid) r = r ≡ launched id pid
Tells run_list (Proto.listed procs) r =
    (lines : List Line) × (r ≡ processes lines) × AreLines procs lines
Tells (run_query id) (Proto.status i) r =
    (l : Line) × (r ≡ one_process l) × IsLine i l × (i.handle ≡ id)
Tells (run_signal id sig) Proto.ack r = r ≡ done id
Tells (run_stop id) Proto.ack r = r ≡ done id
Tells (run_forget id) Proto.ack r = r ≡ done id
Tells _ _ r = ⊥

mem_str-IsMem : (usage : Option Usage) → IsMem usage (mem_str usage)
unfolding mem_str
mem_str-IsMem none = refl
mem_str-IsMem (some u) = refl

line_of-IsLine : (i : ProcInfo) → IsLine i (line_of i)
unfolding line_of
line_of-IsLine i = record {
  handle = refl;
  pid = refl;
  state = refl;
  mem = mem_str-IsMem i.usage;
  restarts = refl;
}

lines-AreLines : (procs : List ProcInfo) → AreLines procs (map line_of procs)
lines-AreLines [] = tt
lines-AreLines (i ∷ procs) = (line_of-IsLine i, lines-AreLines procs)

pub request_of-asked : (cmd : Subcommand) → request_of cmd ≡ asked cmd
unfolding request_of
request_of-asked (run_spawn spec) = refl
request_of-asked run_list = refl
request_of-asked (run_query id) = refl
request_of-asked (run_signal id sig) = refl
request_of-asked (run_stop id) = refl
request_of-asked (run_forget id) = refl

-- Each command tells what it should of a response that belongs to its request.
pub report_of-Tells :
    (cmd : Subcommand) (resp : Response)
    → Answers (request_of cmd) resp
    → Tells cmd resp (report_of cmd resp)
unfolding report_of request_of report_spawn report_list report_query report_ack report_failure
report_of-Tells (run_spawn spec) (Proto.error e) a = refl
report_of-Tells (run_spawn spec) (Proto.spawned id pid) a = refl
report_of-Tells (run_spawn spec) Proto.ack a = absurd a
report_of-Tells (run_spawn spec) (Proto.status i) a = absurd a
report_of-Tells (run_spawn spec) (Proto.listed procs) a = absurd a
report_of-Tells run_list (Proto.error e) a = refl
report_of-Tells run_list (Proto.listed procs) a = (map line_of procs, refl, lines-AreLines procs)
report_of-Tells run_list Proto.ack a = absurd a
report_of-Tells run_list (Proto.status i) a = absurd a
report_of-Tells run_list (Proto.spawned id pid) a = absurd a
report_of-Tells (run_query id) (Proto.error e) a = refl
report_of-Tells (run_query id) (Proto.status i) a = (line_of i, refl, line_of-IsLine i, a)
report_of-Tells (run_query id) Proto.ack a = absurd a
report_of-Tells (run_query id) (Proto.spawned h pid) a = absurd a
report_of-Tells (run_query id) (Proto.listed procs) a = absurd a
report_of-Tells (run_signal id sig) (Proto.error e) a = refl
report_of-Tells (run_signal id sig) Proto.ack a = refl
report_of-Tells (run_signal id sig) (Proto.spawned h pid) a = absurd a
report_of-Tells (run_signal id sig) (Proto.status i) a = absurd a
report_of-Tells (run_signal id sig) (Proto.listed procs) a = absurd a
report_of-Tells (run_stop id) (Proto.error e) a = refl
report_of-Tells (run_stop id) Proto.ack a = refl
report_of-Tells (run_stop id) (Proto.spawned h pid) a = absurd a
report_of-Tells (run_stop id) (Proto.status i) a = absurd a
report_of-Tells (run_stop id) (Proto.listed procs) a = absurd a
report_of-Tells (run_forget id) (Proto.error e) a = refl
report_of-Tells (run_forget id) Proto.ack a = refl
report_of-Tells (run_forget id) (Proto.spawned h pid) a = absurd a
report_of-Tells (run_forget id) (Proto.status i) a = absurd a
report_of-Tells (run_forget id) (Proto.listed procs) a = absurd a
