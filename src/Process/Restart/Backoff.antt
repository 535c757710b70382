-- ===== src/Process/Restart/Backoff.antt =====
-- The delay before a relaunch, against the doubling that its comment describes.
use native.Mathlib.Nat.{pow-le-pow_right}
use mesh_supervisor.Prelude.{
  leb, leb→le, Bool-cases, ℕ, suc, ◌+◌, ◌-◌, ◌*◌, ◌%◌, ◌^◌, ◌≤◌, ◌<◌, min, ◌≡◌, inl, inr, arith,
}
use mesh_supervisor.Process.Restart.{backoff, restart_base, restart_max}

previous : (n : ℕ) → suc n < 2 ^ 32 → (suc n + 2 ^ 32 - 1) % 2 ^ 32 ≡ n
previous n h = omega arith

pow_mono : (m n : ℕ) → m ≤ n → 2 ^ m ≤ 2 ^ n
pow_mono m n h = pow-le-pow_right (omega arith) h

-- The cap on the shift is never seen: 2 ^ 5 seconds are more than the maximum.
shift_cap :
    (n : ℕ) → min (restart_base * 2 ^ min n 5) restart_max ≡ min (restart_base * 2 ^ n) restart_max
shift_cap n = elim (Bool-cases (leb n 5)) [
  | inl low ↦ rw (min_low n (leb→le n 5 low))
  | inr high ↦ rw (min_high n (ground arith)) (omega (arith, pow_mono 5 n (ground arith)))
]
  where
    min_low : (n : ℕ) → n ≤ 5 → min n 5 ≡ n
    min_low n h = omega arith

    min_high : (n : ℕ) → 5 ≤ n → min n 5 ≡ 5
    min_high n h = omega arith

-- The shift stops at 5, and that is not seen: the delay before the n-th consecutive fast restart
-- is base * 2^(n-1), capped at the maximum, for every n that a u32 holds.
pub backoff_doubles :
    (n : ℕ) → suc n < 2 ^ 32 → backoff (suc n) ≡ min (restart_base * 2 ^ n) restart_max
unfolding backoff
backoff_doubles n h = rw (previous n h) (shift_cap n)

capped_mono :
    (a b : ℕ)
    → a ≤ b
    → (restart_base ≤ min (restart_base * 2 ^ a) restart_max)
      × (min (restart_base * 2 ^ a) restart_max ≤ min (restart_base * 2 ^ b) restart_max)
      × (min (restart_base * 2 ^ b) restart_max ≤ restart_max)
capped_mono a b h = omega (arith, pow_mono a b h, pow_mono 0 a (omega arith))

-- Every delay lies between the base and the maximum, and a later attempt never waits less, for the
-- attempts that a u32 holds.
pub backoff_bounds :
    (m n : ℕ)
    → m ≤ n
    → suc n < 2 ^ 32
    → (restart_base ≤ backoff (suc m))
      × (backoff (suc m) ≤ backoff (suc n))
      × (backoff (suc n) ≤ restart_max)
backoff_bounds m n le h =
    rw (backoff_doubles m (omega arith), backoff_doubles n h) (capped_mono m n le)
