-- ===== src/Text.antt =====
-- The functions on text that src/cli.rs, src/cgroup.rs and src/sandbox.rs call: Rust's `trim`, `lines`,
-- `strip_prefix`, `to_string` and `parse`, on lists of code points.
pub mod Numbers
pub mod Trim
use mesh_supervisor.Prelude.{
  ltb, leb, nat_beq, if◌then◌else◌, is_empty, ℕ, zero, suc, ◌+◌, ◌-◌, ◌*◌, ◌/◌, ◌%◌, ◌^◌, String,
  Bool, false, ◌&&◌, ◌||◌, Option, none, some, List, [], ◌∷◌, ◌++◌,
}
use Prim.Native.Char.{code}

abbrev pub Text : Type 0
Text = List ℕ

-- A literal's code points.
abbrev pub text : String → Text
text String.[] = []
text (String.◌∷◌ letter rest) = code letter ∷ text rest

-- `char::is_whitespace`: the code points of Unicode's White_Space.
abbrev pub is_whitespace : ℕ → Bool
is_whitespace c =
    (leb 9 c && leb c 13)
    || nat_beq c 32
    || nat_beq c 133
    || nat_beq c 160
    || nat_beq c 5760
    || (leb 8192 c && leb c 8202)
    || nat_beq c 8232
    || nat_beq c 8233
    || nat_beq c 8239
    || nat_beq c 8287
    || nat_beq c 12288

unfoldable pub trim_start : Text → Text
trim_start [] = []
trim_start (c ∷ s) = let rest = trim_start s in if is_whitespace c then rest else c ∷ s

unfoldable pub trim_end : Text → Text
trim_end [] = []
trim_end (c ∷ s) =
    let rest = trim_end s in if is_whitespace c && is_empty rest then [] else c ∷ rest

unfoldable pub trim : Text → Text
unfolding trim_start trim_end
trim s = trim_end (trim_start s)

unfoldable pub strip_prefix : Text → Text → Option Text
strip_prefix [] s = some s
strip_prefix (p ∷ ps) [] = none
strip_prefix (p ∷ ps) (c ∷ s) = let rest = strip_prefix ps s in if nat_beq p c then rest else none

abbrev pub starts_with_newline : Text → Bool
starts_with_newline [] = false
starts_with_newline (c ∷ s) = nat_beq c 10

abbrev pub cons_first : ℕ → List Text → List Text
cons_first c [] = (c ∷ []) ∷ []
cons_first c (l ∷ ls) = (c ∷ l) ∷ ls

-- `lines`: a carriage return before the end of a line belongs to it.
unfoldable pub lines : Text → List Text
lines [] = []
lines (c ∷ s) =
    let rest = lines s in
    if nat_beq c 10
    then [] ∷ rest
    else if nat_beq c 13 && starts_with_newline s
    then rest
    else cons_first c rest

abbrev pub is_digit : ℕ → Bool
is_digit c = leb 48 c && leb c 57

-- The digits of a number below `10 ^ places`.
unfoldable pub to_digits : ℕ → ℕ → Text
to_digits zero n = []
to_digits (suc places) n =
    let before = to_digits places (n / 10) in
    if ltb n 10 then (48 + n) ∷ [] else before ++ ((48 + n % 10) ∷ [])

-- `to_string` of a u64, which has at most twenty digits.
abbrev pub to_string : ℕ → Text
to_string n = to_digits 20 n

unfoldable pub read_digits : ℕ → Text → Option ℕ
read_digits acc [] = some acc
read_digits acc (c ∷ s) =
    let value = acc * 10 + (c - 48) in
    let rest = read_digits value s in if is_digit c && ltb value (2 ^ 64) then rest else none

abbrev pub read_some : Text → Option ℕ
read_some [] = none
read_some (c ∷ s) = read_digits 0 (c ∷ s)

-- `parse::<u64>`: a plus sign may stand in front.
unfoldable pub parse_u64 : Text → Option ℕ
unfolding read_digits
parse_u64 [] = none
parse_u64 (c ∷ s) = if nat_beq c b'+' then read_some s else read_some (c ∷ s)
