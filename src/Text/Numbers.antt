-- ===== src/Text/Numbers.antt =====
-- A number that is printed is read back.
use mesh_supervisor.Prelude.{
  ltb, nat_beq, ltb→lt, lt→ltb, Bool-cases, ℕ, zero, suc, ◌+◌, ◌-◌, ◌*◌, ◌/◌, ◌%◌, ◌^◌, ◌<◌, ◌≡◌,
  refl, subst, ◌∙◌, ◌≢◌, inl, inr, true, false, some, [], ◌∷◌, ◌++◌, arith,
}
use mesh_supervisor.Text.{is_digit, to_string, parse_u64, Text, to_digits, read_digits}
use native.Mathlib.Nat.{pow-suc}

read_digits-append :
    (xs ys : Text) (acc n : ℕ)
    → read_digits acc xs ≡ some n
    → read_digits acc (xs ++ ys) ≡ read_digits n ys
unfolding read_digits
read_digits-append [] ys acc n e = ground (arith, e)
read_digits-append (c ∷ xs) ys acc n e =
    ground (arith, read_digits-append xs ys (acc * 10 + (c - 48)) n)

read_last : (n : ℕ) → n < 2 ^ 64 → read_digits (n / 10) ((48 + n % 10) ∷ []) ≡ some n
unfolding read_digits
read_last n h = ground arith

one_digit : (n : ℕ) → n < 10 → read_digits 0 ((48 + n) ∷ []) ≡ some n
unfolding read_digits
one_digit n h = ground arith

pub tenth_below : (k n : ℕ) → n < 10 ^ suc (suc k) → n / 10 < 10 ^ suc k
tenth_below k n h = omega (arith, pow-suc 10 (suc k))

pub read_digits-to_digits :
    (places n : ℕ)
    → n < 10 ^ suc places
    → n < 2 ^ 64
    → read_digits 0 (to_digits (suc places) n) ≡ some n
unfolding to_digits
read_digits-to_digits zero n fits h =
    let small : n < 10 = omega arith in rw (lt→ltb n 10 small) (one_digit n small)
read_digits-to_digits (suc k) n fits h = elim (Bool-cases (ltb n 10)) [
  | inl small ↦ rw small (one_digit n (ltb→lt n 10 small))
  | inr large ↦ rw large (
      read_digits-append (to_digits (suc k) (n / 10)) ((48 + n % 10) ∷ []) 0 (n / 10)
        (read_digits-to_digits k (n / 10) (tenth_below k n fits) (omega arith))
      ∙ read_last n h)
]

-- The first character of a number is a digit.
abbrev pub StartsWithDigit : Text → Type 0
StartsWithDigit [] = ⊥
StartsWithDigit (c ∷ s) = is_digit c ≡ true

pub StartsWithDigit-ne-nil : (s : Text) → StartsWithDigit s → s ≢ []
StartsWithDigit-ne-nil s h e = subst StartsWithDigit e h

StartsWithDigit-append : (xs ys : Text) → StartsWithDigit xs → StartsWithDigit (xs ++ ys)
StartsWithDigit-append [] ys h = absurd h
StartsWithDigit-append (c ∷ xs) ys h = h

pub to_digits-StartsWithDigit :
    (places n : ℕ) → n < 10 ^ suc places → StartsWithDigit (to_digits (suc places) n)
unfolding to_digits
to_digits-StartsWithDigit zero n h =
    let small : n < 10 = omega arith in rw (lt→ltb n 10 small) (ground arith)
to_digits-StartsWithDigit (suc k) n h = elim (Bool-cases (ltb n 10)) [
  | inl small ↦ rw small (ground (arith, small))
  | inr large ↦ rw large (
      StartsWithDigit-append (to_digits (suc k) (n / 10)) _
        (to_digits-StartsWithDigit k (n / 10) (tenth_below k n h)))
]

-- A text that starts with a digit has no plus sign to skip.
pub parse_u64-read_digits : (s : Text) → StartsWithDigit s → parse_u64 s ≡ read_digits 0 s
unfolding parse_u64
parse_u64-read_digits [] h = absurd h
parse_u64-read_digits (c ∷ s) h = let other : nat_beq c b'+' ≡ false = ground arith in rw other refl

-- What `to_string` prints of a u64, `parse` reads back.
pub parse_u64-to_string : (n : ℕ) → n < 2 ^ 64 → parse_u64 (to_string n) ≡ some n
parse_u64-to_string n h =
    let fits : n < 10 ^ 20 = omega arith in
    parse_u64-read_digits (to_string n) (to_digits-StartsWithDigit 19 n fits)
    ∙ read_digits-to_digits 19 n fits h

read_digits-lt : (s : Text) (acc n : ℕ) → acc < 2 ^ 64 → read_digits acc s ≡ some n → n < 2 ^ 64
unfolding read_digits
read_digits-lt [] acc n h e = ground arith
read_digits-lt (c ∷ s) acc n h e = ground (arith, read_digits-lt s (acc * 10 + (c - 48)) n)

-- A number that is read is a u64.
pub parse_u64-lt : (s : Text) (n : ℕ) → parse_u64 s ≡ some n → n < 2 ^ 64
unfolding parse_u64
parse_u64-lt [] n e = cc
parse_u64-lt (c ∷ []) n e = ground (arith, read_digits-lt (c ∷ []) 0 n)
parse_u64-lt (c ∷ b ∷ s) n e =
    ground (arith, read_digits-lt (b ∷ s) 0 n, read_digits-lt (c ∷ b ∷ s) 0 n)
