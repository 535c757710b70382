-- ===== src/Process/Restart.antt =====
-- src/process.rs: when `supervise` relaunches a child, and after which delay. Durations are in
-- milliseconds.
pub mod Backoff
pub mod Stable
use mesh_supervisor.Prelude.{
  ltb, leb, nat_beq, if◌then◌else◌, ℤ, pos, negsuc, ℕ, ◌+◌, ◌-◌, ◌*◌, ◌%◌, ◌^◌, min, Bool, true,
  false, not, ◌&&◌, ◌||◌, Option, none, some,
}
use mesh_supervisor.Proto.{RestartPolicy, never, on_failure, always}

abbrev pub restart_base : ℕ
restart_base = 1000

abbrev pub restart_max : ℕ
restart_max = 30 * 1000

abbrev pub stable_reset : ℕ
stable_reset = 10 * 1000

-- `code == Some(0)`; `none` is a death by signal.
abbrev pub is_success : Option ℤ → Bool
is_success none = false
is_success (some (pos n)) = nat_beq n 0
is_success (some (negsuc n)) = false

unfoldable pub should_restart : RestartPolicy → Option ℤ → Bool
should_restart never code = false
should_restart always code = true
should_restart on_failure code = not (is_success code)

-- `attempt` is a u32: the number of consecutive fast restarts, this one included.
unfoldable pub next_attempt : ℕ → ℕ → ℕ
next_attempt attempt elapsed = if leb stable_reset elapsed then 1 else (attempt + 1) % 2 ^ 32

unfoldable pub cap_hit : ℕ → ℕ → Bool
cap_hit max_retries attempt = not (nat_beq max_retries 0) && ltb max_retries attempt

-- `(RESTART_BASE * (1 << (attempt - 1).min(5))).min(RESTART_MAX)`
unfoldable pub backoff : ℕ → ℕ
backoff attempt = min (restart_base * 2 ^ min ((attempt + 2 ^ 32 - 1) % 2 ^ 32) 5) restart_max

-- What `supervise` does after an exit: leave the loop, or sleep before a relaunch.
pub data Verdict : Type 0 where
  finish : Verdict
  retry : ℕ → ℕ → Verdict

unfoldable pub retry_or_cap : ℕ → ℕ → Verdict
unfolding cap_hit backoff
retry_or_cap max_retries attempt =
    if cap_hit max_retries attempt then finish else retry attempt (backoff attempt)

-- From the test of `shutdown`, `armed` and the policy down to the delay.
unfoldable pub after_exit : Bool → Bool → RestartPolicy → ℕ → ℕ → Option ℤ → ℕ → Verdict
unfolding should_restart next_attempt retry_or_cap
after_exit shutdown armed policy max_retries attempt code elapsed =
    if shutdown || not armed || not (should_restart policy code)
    then finish
    else retry_or_cap max_retries (next_attempt attempt elapsed)
