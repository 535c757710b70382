-- ===== src/Cli/Sizes.antt =====
-- Which sizes `parse_size` of src/cli.rs reads, and as what.
use mesh_supervisor.Prelude.{
  ltb, if◌then◌else◌, Bool-cases, ok, err, ℕ, suc, ◌+◌, ◌*◌, ◌/◌, ◌%◌, ◌^◌, ◌<◌, ◌≡◌, refl, ap, ◌≢◌,
  inl, inr, true, false, Option, none, some, [], ◌∷◌, ◌++◌, arith,
}
use mesh_supervisor.Text.Numbers.{
  StartsWithDigit-ne-nil, parse_u64-to_string, to_digits-StartsWithDigit,
}
use mesh_supervisor.Text.Trim.{IsSolid-append, to_digits-IsSolid, trim_lem, trim_solid, IsBlank}
use mesh_supervisor.Text.{is_whitespace, is_digit, trim, to_digits, parse_u64, to_string, Text}
use mesh_supervisor.Cli.{
  overflows, scaled, last_char, unit_of, without_last, parse_size, split_unit,
}

last_char-append : (s : Text) (c : ℕ) → last_char (s ++ (c ∷ [])) ≡ some c
unfolding last_char
last_char-append [] c = refl
last_char-append (a ∷ []) c = refl
last_char-append (a ∷ b ∷ s) c = last_char-append (b ∷ s) c

without_last-append : (s : Text) (c : ℕ) → without_last (s ++ (c ∷ [])) ≡ s
unfolding without_last
without_last-append [] c = refl
without_last-append (a ∷ []) c = refl
without_last-append (a ∷ b ∷ s) c = ap (◌∷◌ a) (without_last-append (b ∷ s) c)

-- The last character of a number is a digit.
last_char-to_digits :
    (k n : ℕ) → (c : ℕ) × (last_char (to_digits (suc k) n) ≡ some c) × (is_digit c ≡ true)
unfolding to_digits
last_char-to_digits k n = elim (Bool-cases (ltb n 10)) [
  | inl small ↦ rw small (48 + n, last_char-append [] (48 + n), ground (arith, small))
  | inr large ↦
      rw large (48 + n % 10, last_char-append (to_digits k (n / 10)) (48 + n % 10), ground arith)
]

digit_no_unit : (c : ℕ) → is_digit c ≡ true → unit_of c ≡ none
unfolding unit_of
digit_no_unit c h = ground arith

-- The units, in either case.
pub data IsUnit : ℕ → ℕ → Type 0 where
  upper_k : IsUnit b'K' 1024
  lower_k : IsUnit b'k' 1024
  upper_m : IsUnit b'M' 1048576
  lower_m : IsUnit b'm' 1048576
  upper_g : IsUnit b'G' 1073741824
  lower_g : IsUnit b'g' 1073741824

unit_of-IsUnit : (c mult : ℕ) → IsUnit c mult → unit_of c ≡ some mult
unfolding unit_of
unit_of-IsUnit c mult upper_k = refl
unit_of-IsUnit c mult lower_k = refl
unit_of-IsUnit c mult upper_m = refl
unit_of-IsUnit c mult lower_m = refl
unit_of-IsUnit c mult upper_g = refl
unit_of-IsUnit c mult lower_g = refl

solid_unit : (c mult : ℕ) → unit_of c ≡ some mult → is_whitespace c ≡ false
unfolding unit_of
solid_unit c mult h = ground arith

append-ne-nil : (s : Text) (c : ℕ) → s ++ (c ∷ []) ≢ []
append-ne-nil [] c e = cc
append-ne-nil (a ∷ s) c e = cc

module _ (n : ℕ) (h : n < 2 ^ 64) where
  printed_ne : to_string n ≢ []
  printed_ne = StartsWithDigit-ne-nil (to_string n) (to_digits-StartsWithDigit 19 n (omega arith))

  read_trimmed : parse_u64 (trim (to_string n)) ≡ some n
  read_trimmed =
      rw (trim_solid (to_string n) (to_digits-IsSolid 20 n) printed_ne) (parse_u64-to_string n h)

  split_plain : split_unit (to_string n) ≡ (to_string n, 1)
  unfolding split_unit
  split_plain =
      let (c, last_one, digit) = last_char-to_digits 19 n in
      rw (last_one, digit_no_unit c digit) refl

  split_unit-append :
      (c mult : ℕ)
      → unit_of c ≡ some mult
      → split_unit (to_string n ++ (c ∷ [])) ≡ (to_string n, mult)
  unfolding split_unit
  split_unit-append c mult unit =
      rw (last_char-append (to_string n) c, unit, without_last-append (to_string n) c) refl

-- A number without a unit, with blanks around it, is read as itself.
pub parse_size_plain :
    (before after : Text) (n : ℕ)
    → IsBlank before
    → IsBlank after
    → n < 2 ^ 64
    → parse_size (before ++ (to_string n ++ after)) ≡ ok n
unfolding parse_size
parse_size_plain before after n b a h =
    rw (trim_lem before (to_string n) after b (to_digits-IsSolid 20 n) (printed_ne n h) a)
      (rw (split_plain n h, read_trimmed n h) (ground arith))

-- A number with one of the units K, M and G, in either case, is read as 2^10, 2^20 or 2^30 times
-- itself, with blanks around it, and refused exactly where that does not fit a u64. The number
-- itself fits one.
pub parse_size_unit :
    (before after : Text) (n c mult : ℕ)
    → IsBlank before
    → IsBlank after
    → n < 2 ^ 64
    → IsUnit c mult
    → let s = to_string n ++ (c ∷ []) in
      parse_size (before ++ (s ++ after))
      ≡ (if ltb (n * mult) (2 ^ 64) then ok (n * mult) else err (overflows s))
unfolding parse_size
parse_size_unit before after n c mult b a h is_unit =
    let unit = unit_of-IsUnit c mult is_unit in
    rw
      (trim_lem before (to_string n ++ (c ∷ [])) after b
        (IsSolid-append (to_string n) (c ∷ []) (to_digits-IsSolid 20 n)
          (solid_unit c mult unit, tt))
        (append-ne-nil (to_string n) c) a)
      (rw (split_unit-append n h c mult unit, read_trimmed n h) refl)

-- Whatever is read fits a u64.
pub parse_size-lt : (s : Text) (v : ℕ) → parse_size s ≡ ok v → v < 2 ^ 64
unfolding parse_size
parse_size-lt s v e = scaled-lt _ _ (parse_u64 _) e
  where
    scaled-lt : (t : Text) (mult : ℕ) (o : Option ℕ) → scaled t mult o ≡ ok v → v < 2 ^ 64
    scaled-lt t mult none k = cc
    scaled-lt t mult (some n) k = ground arith
