-- ===== src/Cli.antt =====
-- src/cli.rs: `parse_size`, the value parser of `--mem`; `Tree` has the declarations of the commands.
pub mod Sizes
pub mod Values
pub mod Tree
pub mod Parsed
pub mod Checked
use mesh_supervisor.Prelude.{
  ltb, nat_beq, if◌then◌else◌, Result, ok, err, ℕ, ◌*◌, ◌^◌, ◌||◌, Option, none, some, [], ◌∷◌,
}
use mesh_supervisor.Text.{trim, parse_u64, Text}

-- An error shows the trimmed text.
pub data SizeError : Type 0 where
  invalid : Text → SizeError
  overflows : Text → SizeError

unfoldable pub last_char : Text → Option ℕ
last_char [] = none
last_char (c ∷ []) = some c
last_char (c ∷ d ∷ s) = last_char (d ∷ s)

-- `&s[..s.len() - 1]`, where the last character is one byte.
unfoldable pub without_last : Text → Text
without_last [] = []
without_last (c ∷ []) = []
without_last (c ∷ d ∷ s) = c ∷ without_last (d ∷ s)

-- The multiplier of a unit.
unfoldable pub unit_of : ℕ → Option ℕ
unit_of c =
    if nat_beq c b'K' || nat_beq c b'k'
    then some 1024
    else if nat_beq c b'M' || nat_beq c b'm'
    then some (1024 * 1024)
    else if nat_beq c b'G' || nat_beq c b'g'
    then some (1024 * 1024 * 1024)
    else none

-- The text of the number and its multiplier.
abbrev pub with_unit : Text → Option ℕ → Text × ℕ
with_unit s none = (s, 1)
with_unit s (some mult) = (without_last s, mult)

unfoldable pub split_unit : Text → Text × ℕ
unfolding without_last unit_of
split_unit s = with_unit s (elim (last_char s) [ none ↦ none | some c ↦ unit_of c ])

abbrev pub scaled : Text → ℕ → Option ℕ → Result SizeError ℕ
scaled s mult none = err (invalid s)
scaled s mult (some n) = if ltb (n * mult) (2 ^ 64) then ok (n * mult) else err (overflows s)

abbrev pub parse_trimmed : Text → Result SizeError ℕ
parse_trimmed s = let (num, mult) = split_unit s in scaled s mult (parse_u64 (trim num))

unfoldable pub parse_size : Text → Result SizeError ℕ
unfolding split_unit
parse_size s = parse_trimmed (trim s)
