-- ===== src/Prelude/Fallible.antt =====
-- The shape of a fallible computation, `Result<A, E>`, and the signed numbers of `i32` values.
use Prim.Native.Nat.{ℕ, ◌+◌, ◌-◌, ◌^◌}
use mathlib.Core.Path.{◌≡◌, refl}
use native.Mathlib.Omega.{arith}
use mathlib.Core.Option.{Option, none, some}
use mathlib.Core.Bool.{Bool, true, false}
use mesh_supervisor.Prelude.Tests.{ltb, nat_beq, if◌then◌else◌}

pub data Result {ℓ κ} (E : Type κ) (A : Type ℓ) : Type (ℓ ⊔ κ) where
  ok : A → Result E A
  err : E → Result E A

abbrev pub option_ok {ℓ κ} : {E : Type κ} {A : Type ℓ} → E → Option A → Result E A
option_ok e none = err e
option_ok e (some a) = ok a

infixl 5 ◌>>=◌
abbrev pub ◌>>=◌ {ℓ κ μ} :
    {E : Type μ} {A : Type ℓ} {B : Type κ} → Result E A → (A → Result E B) → Result E B
ok a >>= f = f a
err e >>= f = err e

module _ {ℓ κ μ} {E : Type μ} {A : Type ℓ} {B : Type κ} where
  pub >>=-eq-ok :
      (first : Result E A) (then_do : A → Result E B) {result : B}
      → (first >>= then_do) ≡ ok result
      → (x : A) × (first ≡ ok x) × (then_do x ≡ ok result)
  >>=-eq-ok (ok x) then_do h = (x, refl, h)
  >>=-eq-ok (err failure) then_do h = cc

pub option_ok-eq-ok {ℓ κ} :
    {E : Type κ} {A : Type ℓ} (e : E) (o : Option A) {a : A} → option_ok e o ≡ ok a → o ≡ some a
option_ok-eq-ok e none h = cc
option_ok-eq-ok e (some x) h = ground arith

pub ok-injective {ℓ κ} :
    {E : Type κ} {A : Type ℓ} {a b : A} → ◌≡◌ {A = Result E A} (ok a) (ok b) → a ≡ b
ok-injective e = ground arith

abbrev pub is_some {ℓ} : {A : Type ℓ} → Option A → Bool
is_some none = false
is_some (some a) = true

-- `negsuc n` is -(n + 1).
pub data ℤ : Type 0 where
  pos : ℕ → ℤ
  negsuc : ℕ → ℤ

-- `(x : u32) as i32`, by two's complement.
abbrev pub as_i32 : ℕ → ℤ
as_i32 x = if ltb x (2 ^ 31) then pos x else negsuc (2 ^ 32 - 1 - x)

-- `-x` on i32; `i32::MIN` is its own negation in a release build.
abbrev pub neg_i32 : ℤ → ℤ
neg_i32 (pos n) = if nat_beq n 0 then pos 0 else negsuc (n - 1)
neg_i32 (negsuc n) = if nat_beq n (2 ^ 31 - 1) then negsuc n else pos (n + 1)
