-- ===== src/Commands/Expected.antt =====
-- The subcommands of src/commands.rs against `accept` of src/supervisor.rs.
use mesh_supervisor.Proto
use mesh_supervisor.Supervisor
use mesh_supervisor.Process.Table
use mesh_supervisor.Process.Signals
use mesh_supervisor.Prelude.{
  if◌then◌else◌, nat_eq, Result, ◌>>=◌, ok, err, ℕ, String, ◌≡◌, subst, ◌≢◌, Bool, true, false,
  Option, none, some, arith,
}
use mesh_supervisor.Commands.Report.{
  run_list, run_forget, run_stop, run_signal, run_query, run_spawn, surprise, Subcommand,
  report_failure, report_ack, report_query, report_list, report_spawn, report_of, request_of,
}
use mesh_supervisor.Process.Table.{Readings}
use mesh_supervisor.Process.Stdin.{pipe_stdin}
use mesh_supervisor.Process.State.{info, ProcEntry, Manager, Stdout}
use mesh_supervisor.Store.Database.{Disk}
use mesh_supervisor.Supervisor.{
  authorize, received, outcome_of, accept, Host, Supervisor, stream_or_error, dispatch, carry_out,
  ack_or_error, Reply,
}
use mesh_supervisor.Proto.{EndpointId, Handle, Spec, ControlError, Response, Request}

abbrev IsAck : Response → Type 0
IsAck Proto.ack = Unit
IsAck (Proto.error e) = Unit
IsAck _ = ⊥

-- Which responses a request may have.
abbrev pub Answers : Request → Response → Type 0
Answers (Proto.signal id sig) resp = IsAck resp
Answers (Proto.stop id) resp = IsAck resp
Answers (Proto.forget id) resp = IsAck resp
Answers (Proto.stdin_stream id) resp = IsAck resp
Answers req (Proto.error e) = Unit
Answers (Proto.spawn spec) (Proto.spawned id pid) = Unit
Answers Proto.list (Proto.listed infos) = Unit
Answers (Proto.query id) (Proto.status i) = i.handle ≡ id
Answers _ _ = ⊥

error-Answers : (req : Request) (e : ControlError) → Answers req (Proto.error e)
error-Answers (Proto.spawn spec) e = tt
error-Answers (Proto.signal id sig) e = tt
error-Answers (Proto.stop id) e = tt
error-Answers (Proto.stdin_stream id) e = tt
error-Answers (Proto.query id) e = tt
error-Answers (Proto.subscribe id) e = tt
error-Answers (Proto.forget id) e = tt
error-Answers Proto.list e = tt

-- A reply that is one framed response.
abbrev AnswersIn : Request → Reply → Type 0
AnswersIn req (Supervisor.answer resp) = Answers req resp
AnswersIn req (Supervisor.stream out) = Unit
AnswersIn req Supervisor.panicked = Unit

ack-Answers :
    {A : Type 0} (req : Request) (r : Result ControlError A)
    → Answers req Proto.ack
    → Answers req (ack_or_error r)
ack-Answers req (ok a) h = h
ack-Answers req (err e) h = error-Answers req e

handle_kept :
    (cgroups : Bool) (usage : Readings) (entry : ProcEntry) (id : Handle)
    → (Table.fill_usage cgroups usage (info entry id)).handle ≡ id
unfolding Table.fill_usage info
handle_kept cgroups usage entry id = ground arith

module _ (d : Disk) where
  spawn-Answers :
      (spec : Spec) (reply : Option (Handle × ℕ))
      → Answers (Proto.spawn spec) (Supervisor.spawn_response d reply)
  spawn-Answers spec none = tt
  spawn-Answers spec (some (id, pid)) = tt

  query-Answers :
      (m : Manager d) (usage : Readings) (id : Handle)
      → Answers (Proto.query id) (Supervisor.query_response d (Table.query d m usage id))
  unfolding Table.query
  query-Answers m usage id = by_entry (Table.entry_of m.procs id)
    where
      by_entry :
          (r : Result ControlError ProcEntry)
          → Answers (Proto.query id) (
              Supervisor.query_response d
                (r >>= λ entry. ok (Table.fill_usage m.cgroups usage (info entry id))))
      by_entry (ok entry) = handle_kept m.cgroups usage entry id
      by_entry (err e) = tt

  stream-Answers :
      (id : Handle) (r : Result ControlError Stdout)
      → AnswersIn (Proto.subscribe id) (stream_or_error d r)
  stream-Answers id (ok out) = tt
  stream-Answers id (err e) = tt

  carry_out-Answers :
      (s : Supervisor d) (host : Host) (req : Request)
      → AnswersIn req (carry_out d s host (ok req)).1
  unfolding carry_out dispatch
  carry_out-Answers s host (Proto.spawn spec) = spawn-Answers spec _
  carry_out-Answers s host Proto.list = tt
  carry_out-Answers s host (Proto.query id) = query-Answers s.procs host.usage id
  carry_out-Answers s host (Proto.signal id sig) =
      ack-Answers (Proto.signal id sig)
        (Signals.signal d host.valid_signal host.delivered s.procs id sig) tt
  carry_out-Answers s host (Proto.stop id) =
      ack-Answers (Proto.stop id) (Signals.stop d s.procs id) tt
  carry_out-Answers s host (Proto.forget id) =
      ack-Answers (Proto.forget id) (Table.forget d s.procs id) tt
  carry_out-Answers s host (Proto.stdin_stream id) =
      ack-Answers (Proto.stdin_stream id) (pipe_stdin d s.procs s.pipes id host.copied).1 tt
  carry_out-Answers s host (Proto.subscribe id) = stream-Answers id (Table.subscribe d s.procs id)

  verdict-Answers :
      (s : Supervisor d) (host : Host) (req : Request) (allowed : Bool)
      (verdict : Result ControlError (Unit {0}))
      → AnswersIn req
          (carry_out d s host
            (if allowed then (verdict >>= λ u. ok req) else err Proto.rate_limited)).1
  unfolding carry_out
  verdict-Answers s host req false verdict = error-Answers req Proto.rate_limited
  verdict-Answers s host req true (err e) = error-Answers req e
  verdict-Answers s host req true (ok u) = carry_out-Answers s host req

  -- `accept` answers a request with the response that belongs to it or with an error; a `query` is
  -- answered with the process it asks for.
  pub accept-Answers :
      (s : Supervisor d) (host : Host) (remote : EndpointId) (now : ℕ) (req : Request)
      (resp : Response)
      → (accept d s host remote now (received req)).1 ≡ Supervisor.answer resp
      → Answers req resp
  unfolding accept carry_out outcome_of
  accept-Answers s host remote now req resp e =
      subst (AnswersIn req) e (verdict-Answers _ host req _ (authorize s.authz remote req))

module _ (other : Response) where
  report_spawn-Answers :
      (spec : Spec) (r : Response) → Answers (Proto.spawn spec) r → report_spawn r ≢ surprise other
  unfolding report_spawn report_failure
  report_spawn-Answers spec (Proto.spawned id pid) k e = cc
  report_spawn-Answers spec (Proto.error x) k e = cc
  report_spawn-Answers spec Proto.ack k e = absurd k
  report_spawn-Answers spec (Proto.status i) k e = absurd k
  report_spawn-Answers spec (Proto.listed infos) k e = absurd k

  report_list-Answers : (r : Response) → Answers Proto.list r → report_list r ≢ surprise other
  unfolding report_list report_failure
  report_list-Answers (Proto.listed infos) k e = cc
  report_list-Answers (Proto.error x) k e = cc
  report_list-Answers Proto.ack k e = absurd k
  report_list-Answers (Proto.status i) k e = absurd k
  report_list-Answers (Proto.spawned id pid) k e = absurd k

  report_query-Answers :
      (id : Handle) (r : Response) → Answers (Proto.query id) r → report_query r ≢ surprise other
  unfolding report_query report_failure
  report_query-Answers id (Proto.status i) k e = cc
  report_query-Answers id (Proto.error x) k e = cc
  report_query-Answers id Proto.ack k e = absurd k
  report_query-Answers id (Proto.listed infos) k e = absurd k
  report_query-Answers id (Proto.spawned h pid) k e = absurd k

  report_ack-Answers :
      (verb : String) (id : Handle) (r : Response) → IsAck r → report_ack verb id r ≢ surprise other
  unfolding report_ack report_failure
  report_ack-Answers verb id Proto.ack k e = cc
  report_ack-Answers verb id (Proto.error x) k e = cc
  report_ack-Answers verb id (Proto.status i) k e = absurd k
  report_ack-Answers verb id (Proto.listed infos) k e = absurd k
  report_ack-Answers verb id (Proto.spawned h pid) k e = absurd k

  -- A response that belongs to a subcommand's request is no surprise to it.
  pub report_of-Answers :
      (cmd : Subcommand) (resp : Response)
      → Answers (request_of cmd) resp
      → report_of cmd resp ≢ surprise other
  unfolding request_of report_of
  report_of-Answers (run_spawn spec) resp h = report_spawn-Answers spec resp h
  report_of-Answers run_list resp h = report_list-Answers resp h
  report_of-Answers (run_query id) resp h = report_query-Answers id resp h
  report_of-Answers (run_signal id sig) resp h = report_ack-Answers "signal" id resp h
  report_of-Answers (run_stop id) resp h = report_ack-Answers "stop" id resp h
  report_of-Answers (run_forget id) resp h = report_ack-Answers "forget" id resp h
