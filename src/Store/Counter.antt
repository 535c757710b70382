-- ===== src/Store/Counter.antt =====
-- `u64::to_le_bytes` and `u64::from_le_bytes`, for the handle counter of src/store.rs.
use native.Mathlib.Nat.{pow-suc}
use mesh_supervisor.Prelude.{
  length, ℕ, zero, suc, ◌+◌, ◌*◌, ◌/◌, ◌%◌, ◌^◌, ◌<◌, ◌≡◌, refl, ap, [], ◌∷◌, arith,
}
use mesh_supervisor.Proto.Frame.{Bytes}

-- The `k` low bytes of `n`, lowest first.
unfoldable pub to_le_bytes : ℕ → ℕ → Bytes
to_le_bytes zero n = []
to_le_bytes (suc k) n = (n % 256) ∷ to_le_bytes k (n / 256)

unfoldable pub from_le_bytes : Bytes → ℕ
from_le_bytes [] = 0
from_le_bytes (b ∷ bs) = b + 256 * from_le_bytes bs

pub length-to_le_bytes : (k n : ℕ) → length (to_le_bytes k n) ≡ k
unfolding to_le_bytes
length-to_le_bytes zero n = refl
length-to_le_bytes (suc k) n = ap suc (length-to_le_bytes k (n / 256))

div-lt-pow : (k n : ℕ) → n < 256 ^ suc k → n / 256 < 256 ^ k
div-lt-pow k n h = omega (arith, pow-suc 256 k)

pub from_le_bytes-to_le_bytes : (k n : ℕ) → n < 256 ^ k → from_le_bytes (to_le_bytes k n) ≡ n
unfolding to_le_bytes from_le_bytes
from_le_bytes-to_le_bytes zero n h = omega arith
from_le_bytes-to_le_bytes (suc k) n h =
    omega (arith, from_le_bytes-to_le_bytes k (n / 256) (div-lt-pow k n h))
