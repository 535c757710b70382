-- ===== src/Client.antt =====
-- src/client.rs: `with_retry`, around the calls that dial a supervisor. Durations are in
-- milliseconds.
pub mod Retry
pub mod Session
pub mod Exchange
use mesh_supervisor.Prelude.{
  nat_beq, if◌then◌else◌, nat_eq, Result, ok, err, ℕ, zero, suc, ◌+◌, ◌*◌, min, max, Option, none,
  some, List, [], ◌∷◌,
}
use mesh_supervisor.Config.{ClientConfig}

-- What `with_retry` returns, how many calls it made, and the sleeps between them. No result at all
-- is the `unreachable!` below the loop.
abbrev pub Tried : Type 0 → Type 0 → Type 0
Tried E T = Option (Result E T) × ℕ × List ℕ

module _ {E T : Type 0} where
  -- The match on the outcome of one call, given what the later iterations do.
  unfoldable pub after_call : ℕ → ℕ → ℕ → Result E T → Tried E T → Tried E T
  after_call attempts attempt delay (ok v) later = (some (ok v), attempt, [])
  after_call attempts attempt delay (err e) (result, calls, sleeps) =
      if nat_beq attempt attempts
      then (some (err e), attempt, [])
      else (result, calls, delay ∷ sleeps)

  -- The iterations of `for attempt in 1..=attempts` that are left; `f n` is the outcome of the
  -- n-th call.
  unfoldable pub retry_loop : ClientConfig → (ℕ → Result E T) → ℕ → ℕ → ℕ → ℕ → Tried E T
  unfolding after_call
  retry_loop cfg f attempts attempt delay zero = (none, 0, [])
  retry_loop cfg f attempts attempt delay (suc left) =
      after_call attempts attempt delay (f attempt)
        (retry_loop cfg f attempts (attempt + 1) (min (delay * 2) cfg.retry_max_delay) left)

  unfoldable pub with_retry : ClientConfig → (ℕ → Result E T) → Tried E T
  unfolding retry_loop
  with_retry cfg f =
      let attempts : ℕ = max cfg.max_retries 1 in
      retry_loop cfg f attempts 1 cfg.retry_base_delay attempts
