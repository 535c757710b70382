-- ===== src/Supervisor/Access.antt =====
-- Who may do what through `accept` of src/supervisor.rs.
use mesh_supervisor.Prelude.{
  if◌then◌else◌, Bool-cases, nat_eq, Result, ◌>>=◌, ok, err, ℕ, ◌≡◌, refl, ◌≢◌, inl, inr, true,
  false, ◌&&◌, ◌||◌, List, [], arith,
}
use mesh_supervisor.Proto.{
  EndpointId, Request, spawn, signal, stop, stdin_stream, query, subscribe, forget, list,
  is_read_only, error, ControlError, denied, rate_limited,
}
use mesh_supervisor.Process.State.{Stdout, Effect}
use mesh_supervisor.Process.Table
use mesh_supervisor.Ratelimit.{allow}
use mesh_supervisor.Supervisor.{
  stream_or_error, Authz, contains, authorize, Incoming, received, malformed, timed_out, Host,
  answer, panicked, Supervisor, Reply, carry_out, outcome_of, accept,
}
use mesh_supervisor.Store.Database.{Disk}

-- The id has no control rights: `--open` is off, and it is not on the control list.
abbrev pub IsUnprivileged : Authz → EndpointId → Type 0
IsUnprivileged a remote = (a.is_open ≡ false) × (contains a.control remote ≡ false)

-- Everything but the rate limiter's buckets.
abbrev pub SameState : {d : Disk} → Supervisor d → Supervisor d → Type 0
SameState s t = (s.procs ≡ t.procs) × (s.pipes ≡ t.pipes) × (s.authz ≡ t.authz)

-- A handling that leaves everything else as it is, and calls nothing.
abbrev pub IsInert : {d : Disk} → Supervisor d × Reply × List Effect → Supervisor d → Type 0
IsInert r s = SameState r.0 s × (r.2 ≡ [])

-- The table of rights: open or control admits everything, read admits what is read-only, and all
-- else is denied.
pub authorize_lem :
    (a : Authz) (remote : EndpointId) (req : Request)
    → authorize a remote req ≡ (
        if a.is_open || contains a.control remote || (is_read_only req && contains a.read remote)
        then ok tt
        else err denied)
unfolding authorize
authorize_lem a remote req = ground arith

unprivileged_request :
    (a : Authz) (remote : EndpointId) (req : Request)
    → IsUnprivileged a remote
    → authorize a remote req ≡ ok tt
    → is_read_only req ≡ true
unfolding authorize
unprivileged_request a remote req u h = ground arith

module _ (d : Disk) where
  read_only-IsInert :
      (s : Supervisor d) (host : Host) (req : Request)
      → is_read_only req ≡ true
      → IsInert (carry_out d s host (ok req)) s
  unfolding is_read_only carry_out
  read_only-IsInert s host list h = ((refl, refl, refl), refl)
  read_only-IsInert s host (query id) h = ((refl, refl, refl), refl)
  read_only-IsInert s host (subscribe id) h = ((refl, refl, refl), refl)
  read_only-IsInert s host (spawn spec) h = cc
  read_only-IsInert s host (signal id sig) h = cc
  read_only-IsInert s host (stop id) h = cc
  read_only-IsInert s host (stdin_stream id) h = cc
  read_only-IsInert s host (forget id) h = cc

  outcome-IsInert :
      (s : Supervisor d) (host : Host) (remote : EndpointId) (incoming : Incoming)
      → IsUnprivileged s.authz remote
      → IsInert (carry_out d s host (outcome_of d s.authz remote incoming)) s
  unfolding outcome_of carry_out
  outcome-IsInert s host remote malformed u = ((refl, refl, refl), refl)
  outcome-IsInert s host remote timed_out u = ((refl, refl, refl), refl)
  outcome-IsInert s host remote (received req) u =
      by_verdict (authorize s.authz remote req)
        λ e. read_only-IsInert s host req (unprivileged_request s.authz remote req u e)
    where
      by_verdict :
          (r : Result ControlError (Unit {0}))
          → (r ≡ ok tt → IsInert (carry_out d s host (ok req)) s)
          → IsInert (carry_out d s host (r >>= λ x. ok req)) s
      by_verdict (err e) allowed = ((refl, refl, refl), refl)
      by_verdict (ok x) allowed = allowed refl

  -- A connection of a peer without control rights changes nothing but the rate limiter, whatever
  -- the peer sends and whatever the host answers: no process, no stdin, no rights. It launches nothing
  -- and sends no signal.
  pub accept-unprivileged :
      (s : Supervisor d) (host : Host) (remote : EndpointId) (now : ℕ) (incoming : Incoming)
      → IsUnprivileged s.authz remote
      → IsInert (accept d s host remote now incoming) s
  unfolding accept carry_out
  accept-unprivileged s host remote now incoming u =
      elim (Bool-cases (allow s.cfg.rate_limiter s.limiter remote now).1) [
        | inl admitted ↦ rw admitted (outcome-IsInert _ host remote incoming u)
        | inr limited ↦ rw limited ((refl, refl, refl), refl)
      ]

  -- A connection that the limiter refuses is answered so, and changes and calls nothing else.
  pub accept-limited :
      (s : Supervisor d) (host : Host) (remote : EndpointId) (now : ℕ) (incoming : Incoming)
      → (allow s.cfg.rate_limiter s.limiter remote now).1 ≡ false
      → ((accept d s host remote now incoming).1 ≡ answer (error rate_limited))
        × IsInert (accept d s host remote now incoming) s
  unfolding accept carry_out
  accept-limited s host remote now incoming h = rw h (refl, ((refl, refl, refl), refl))

  stream_answers : (r : Result ControlError Stdout) → stream_or_error d r ≢ panicked
  stream_answers (ok out) h = cc
  stream_answers (err e) h = cc

  carry_out-answers :
      (s : Supervisor d) (host : Host) (r : Result ControlError Request)
      → (carry_out d s host r).1 ≢ panicked
  unfolding carry_out
  carry_out-answers s host (err e) h = cc
  carry_out-answers s host (ok (subscribe id)) h = stream_answers (Table.subscribe d s.procs id) h
  carry_out-answers s host (ok (stdin_stream id)) h = cc
  carry_out-answers s host (ok (spawn spec)) h = cc
  carry_out-answers s host (ok (query id)) h = cc
  carry_out-answers s host (ok (signal id sig)) h = cc
  carry_out-answers s host (ok (stop id)) h = cc
  carry_out-answers s host (ok (forget id)) h = cc
  carry_out-answers s host (ok list) h = cc

  -- No connection reaches an `unreachable!`: every one is answered or streamed to.
  pub accept-answers :
      (s : Supervisor d) (host : Host) (remote : EndpointId) (now : ℕ) (incoming : Incoming)
      → (accept d s host remote now incoming).1 ≢ panicked
  unfolding accept carry_out
  accept-answers s host remote now incoming = carry_out-answers _ host _
