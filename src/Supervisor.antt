-- ===== src/Supervisor.antt =====
-- src/supervisor.rs: the control plane. A connection's whole handling is `accept`; what the client
-- sends and what the operating system answers are arguments.
pub mod Access
pub mod Stream
use mesh_supervisor.Prelude.{
  nat_beq, if◌then◌else◌, nat_eq, Result, ◌>>=◌, ok, err, ℕ, String, Bool, false, ◌&&◌, ◌||◌,
  Option, none, some, List, [], ◌∷◌,
}
use mesh_supervisor.Config.{SupervisorConfig}
use mesh_supervisor.Proto.{
  Handle, EndpointId, Request, spawn, signal, stop, stdin_stream, query, subscribe, forget, list,
  is_read_only, Response, spawned, ack, status, listed, error, ControlError, denied, rate_limited,
  spawn_failed, bad_request, timeout, ProcInfo,
}
use mesh_supervisor.Process.State.{Launched, Manager, Stdout}
use mesh_supervisor.Process.Table.{Readings}
use mesh_supervisor.Process.Table
use mesh_supervisor.Process.Launch
use mesh_supervisor.Process.Signals.{SignalTable}
use mesh_supervisor.Process.Signals
use mesh_supervisor.Process.Signals.Shutdown
use mesh_supervisor.Process.State.{Effect}
use mesh_supervisor.Process.Stdin.{Pipes, pipe_stdin}
use mesh_supervisor.Ratelimit.{Buckets, allow}
use mesh_supervisor.Store.Database.{Disk}

-- The sets are lists of ids; only membership is asked.
pub record Authz : Type 0 where
  pub is_open : Bool
  pub control : List EndpointId
  pub read : List EndpointId

unfoldable pub contains : List EndpointId → EndpointId → Bool
contains [] id = false
contains (x ∷ xs) id = nat_beq x id || contains xs id

unfoldable pub authorize : Authz → EndpointId → Request → Result ControlError (Unit {0})
unfolding contains is_read_only
authorize a remote req =
    if a.is_open || contains a.control remote
    then ok tt
    else if is_read_only req && contains a.read remote
    then ok tt
    else err denied

-- What `read_msg` gives within the request timeout.
pub data Incoming : Type 0 where
  received : Request → Incoming
  malformed : Incoming
  timed_out : Incoming

-- What a request's handling learns from the operating system.
pub record Host : Type 0 where
  pub usage : Readings
  pub launch : Option Launched
  pub valid_signal : SignalTable
  pub delivered : Bool
  pub copied : Bool

-- One framed response, or an `Ack` and then the raw stdout; `panicked` is an `unreachable!`.
pub data Reply : Type 0 where
  answer : Response → Reply
  stream : Stdout → Reply
  panicked : Reply

pub record Supervisor (d : Disk) : Type 0 where
  pub procs : Manager d
  pub pipes : Pipes
  pub authz : Authz
  pub limiter : Buckets
  pub cfg : SupervisorConfig

abbrev pub ack_or_error {ℓ} : {A : Type ℓ} → Result ControlError A → Response
ack_or_error (ok a) = ack
ack_or_error (err e) = error e

abbrev pub infos : {A : Type 0} → List (Handle × A) → List A
infos [] = []
infos ((h, i) ∷ rest) = i ∷ infos rest

abbrev pub spawn_message : String
spawn_message = "could not start process"

abbrev pub malformed_message : String
malformed_message = "malformed request"

module _ (d : Disk) where
  -- The table after a request that may be refused.
  abbrev kept {ℓ} : {A : Type ℓ} → Manager d → Result ControlError A → (A → Manager d) → Manager d
  kept m (ok a) f = f a
  kept m (err e) f = m

  abbrev pub spawn_response : Option (Handle × ℕ) → Response
  spawn_response none = error (spawn_failed spawn_message)
  spawn_response (some (id, pid)) = spawned id pid

  abbrev pub query_response : Result ControlError ProcInfo → Response
  query_response (ok i) = status i
  query_response (err e) = error e

  -- The calls of a signal that is sent, and of the `terminate` task of a `stop` before it sleeps.
  abbrev pub calls_of : Result ControlError (List Effect) → List Effect
  calls_of (ok calls) = calls
  calls_of (err e) = []

  abbrev pub terminates : Result ControlError (Manager d × Option ℕ) → List Effect
  terminates (ok (m, some pid)) = Signals.terminate_first d pid
  terminates (ok (m, none)) = []
  terminates (err e) = []

  -- The manager, the reply and the calls to the system.
  unfoldable pub dispatch : Manager d → Host → Request → Manager d × Reply × List Effect
  dispatch m host (spawn spec) =
      let (m', reply, calls) = Launch.spawn d m spec host.launch in
      (m', answer (spawn_response reply), calls)
  dispatch m host (query id) = (m, answer (query_response (Table.query d m host.usage id)), [])
  dispatch m host (signal id sig) =
      let sent = Signals.signal d host.valid_signal host.delivered m id sig in
      (m, answer (ack_or_error sent), calls_of sent)
  dispatch m host (stop id) =
      let stopped = Signals.stop d m id in
      (kept m stopped (λ r. r.0), answer (ack_or_error stopped), terminates stopped)
  dispatch m host (forget id) =
      (kept m (Table.forget d m id) (λ m'. m'), answer (ack_or_error (Table.forget d m id)), [])
  dispatch m host list = (m, answer (listed (infos (Table.snapshot d m host.usage))), [])
  dispatch m host (subscribe id) = (m, panicked, [])
  dispatch m host (stdin_stream id) = (m, panicked, [])

  abbrev pub stream_or_error : Result ControlError Stdout → Reply
  stream_or_error (ok out) = stream out
  stream_or_error (err e) = answer (error e)

  -- The match on `outcome` in `accept`.
  unfoldable pub carry_out :
      Supervisor d → Host → Result ControlError Request → Supervisor d × Reply × List Effect
  unfolding dispatch
  carry_out s host (err e) = (s, answer (error e), [])
  carry_out s host (ok (subscribe id)) = (s, stream_or_error (Table.subscribe d s.procs id), [])
  carry_out s host (ok (stdin_stream id)) =
      let (pipes', r) = pipe_stdin d s.procs s.pipes id host.copied in
      (record s { pipes = pipes' }, answer (ack_or_error r), [])
  carry_out s host (ok req) =
      let (m', reply, calls) = dispatch s.procs host req in (record s { procs = m' }, reply, calls)

  -- Read, then authorize: one chokepoint for every request.
  unfoldable pub outcome_of : Authz → EndpointId → Incoming → Result ControlError Request
  unfolding authorize
  outcome_of a remote (received req) = do u ← authorize a remote req; ok req
  outcome_of a remote malformed = err (bad_request malformed_message)
  outcome_of a remote timed_out = err timeout

  unfoldable pub accept :
      Supervisor d → Host → EndpointId → ℕ → Incoming → Supervisor d × Reply × List Effect
  accept s host remote now incoming =
      let (limiter', allowed) = allow s.cfg.rate_limiter s.limiter remote now in
      carry_out (record s { limiter = limiter' }) host
        (if allowed then outcome_of s.authz remote incoming else err rate_limited)

  -- `shutdown`, with the fuel and the checks of `kill_all`'s wait.
  unfoldable pub shutdown :
      ℕ → Supervisor d → ℕ → Shutdown.Polls d → Option (ℕ × List Effect × List Effect)
  shutdown fuel s now polls = Shutdown.kill_all d fuel s.procs now polls
