-- ===== src/Process/Restart/Stable.antt =====
-- When the count of restarts of src/process.rs starts again.
use mesh_supervisor.Prelude.{ℤ, ℕ, ◌≤◌, ◌≡◌, true, false, Option, arith}
use mesh_supervisor.Proto.{RestartPolicy}
use mesh_supervisor.Process.Restart.{
  retry, after_exit, should_restart, stable_reset, retry_or_cap, cap_hit, next_attempt, backoff,
}

-- While the supervisor runs and the entry is armed, an exit that the policy restarts, of a child
-- that stayed up for the stable time, leads to a relaunch after the shortest delay, whatever the
-- count of restarts before it and whatever the cap.
pub stable_exit_resets :
    (policy : RestartPolicy) (max_retries attempt : ℕ) (code : Option ℤ) (up : ℕ)
    → should_restart policy code ≡ true
    → stable_reset ≤ up
    → after_exit false true policy max_retries attempt code up ≡ retry 1 1000
unfolding after_exit next_attempt retry_or_cap cap_hit backoff
stable_exit_resets policy m a code up w h = ground (arith, w)
