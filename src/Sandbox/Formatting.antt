-- ===== src/Sandbox/Formatting.antt =====
-- The line `write_map` of src/sandbox.rs writes: it fits the sink of 32 bytes.
use mesh_supervisor.Prelude.{
  ltb, lt→ltb, le→leb, Bool-cases, length, length-append, ℕ, zero, suc, ◌+◌, ◌/◌, ◌%◌, ◌^◌, ◌≤◌,
  ◌<◌, ◌≡◌, refl, ap, ◌∙◌, inl, inr, List, [], ◌∷◌, ◌++◌, arith,
}
use mesh_supervisor.Text.Numbers.{tenth_below}
use mesh_supervisor.Sandbox.{capacity, write_str, format_into}
use mesh_supervisor.Text.{Text, to_string, text, to_digits}
use mathlib.Core.List.{append_assoc}

length-to_digits : (k places n : ℕ) → n < 10 ^ suc k → length (to_digits (suc places) n) ≤ suc k
unfolding to_digits
length-to_digits k zero n h = elim (Bool-cases (ltb n 10)) [
  | inl small ↦ rw small (omega arith)
  | inr large ↦ rw large (omega arith)
]
length-to_digits zero (suc places) n h =
    let small : n < 10 = omega arith in rw (lt→ltb n 10 small) (omega arith)
length-to_digits (suc k) (suc places) n h = elim (Bool-cases (ltb n 10)) [
  | inl small ↦ rw small (omega arith)
  | inr large ↦ rw large (
      omega (
        arith,
        length-to_digits k places (n / 10) (tenth_below k n h),
        length-append (to_digits (suc places) (n / 10)) ((48 + n % 10) ∷ []),
      ))
]

format_into-fits :
    (buf piece : Text) (pieces : List Text)
    → length buf + length piece ≤ capacity
    → format_into buf (piece ∷ pieces) ≡ format_into (buf ++ piece) pieces
unfolding format_into write_str
format_into-fits buf piece pieces h =
    rw (format_into, write_str, le→leb (length buf + length piece) capacity h) refl

-- For an id below `2 ^ 32`, as a user's or a group's is, the sink of 32 bytes takes all of the
-- line "0 {id} 1\n" that is formatted into it piece by piece.
pub format_into_whole :
    (id : ℕ)
    → id < 2 ^ 32
    → format_into [] (text "0 " ∷ to_string id ∷ text " 1" ∷ text "\n" ∷ [])
      ≡ text "0 " ++ (to_string id ++ text " 1\n")
unfolding format_into
format_into_whole id h =
    let ten : length (to_string id) ≤ 10 = length-to_digits 9 19 id (omega arith) in
    let shown = length-append (text "0 ") (to_string id) in
    let longer = length-append (text "0 " ++ to_string id) (text " 1") in
    format_into-fits [] (text "0 ") (to_string id ∷ text " 1" ∷ text "\n" ∷ []) (omega arith)
    ∙ format_into-fits (text "0 ") (to_string id) (text " 1" ∷ text "\n" ∷ []) (omega arith)
    ∙ format_into-fits (text "0 " ++ to_string id) (text " 1") (text "\n" ∷ []) (omega arith)
    ∙ format_into-fits ((text "0 " ++ to_string id) ++ text " 1") (text "\n") [] (omega arith)
    ∙ ap (λ rest. text "0 " ++ rest) (append_assoc (to_string id) (text " 1") (text "\n"))
