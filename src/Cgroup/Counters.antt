-- ===== src/Cgroup/Counters.antt =====
-- What `usage` of src/cgroup.rs reads from the kernel's counters.
use mathlib.Core.Path.{ap₂}
use mesh_supervisor.Prelude.{
  nat_beq, beq_refl, nat_eq, All, ℕ, ◌^◌, ◌<◌, ◌≡◌, refl, sym, ap, ◌∙◌, Bool, true, false, not,
  ◌&&◌, Option, some, List, [], ◌∷◌, ◌++◌, append-nil, arith,
}
use mesh_supervisor.Proto.{Handle}
use mesh_supervisor.Cgroup.Paths.{join, FilePath}
use mesh_supervisor.Text.Numbers.{
  parse_u64-to_string, to_digits-StartsWithDigit, StartsWithDigit-ne-nil,
}
use mesh_supervisor.Text.Trim.{trim_lem, to_digits-IsSolid, IsSolid, IsBlank}
use mesh_supervisor.Cgroup.{
  both_counters, leaf_of, usage, cpu_counter, find_map, Fs, number_in, usage_line,
}
use mesh_supervisor.Text.{
  trim, is_whitespace, parse_u64, to_string, lines, strip_prefix, Text, text,
}

-- No line break.
abbrev pub IsLine : Text → Type 0
IsLine s = All (λ c. (nat_beq c 10 ≡ false) × (nat_beq c 13 ≡ false)) s

lines-append : (l rest : Text) → IsLine l → lines (l ++ (10 ∷ rest)) ≡ l ∷ lines rest
unfolding lines
lines-append [] rest h = refl
lines-append (c ∷ l) rest h = rw (h.0.0, h.0.1, lines-append l rest h.1) refl

IsLine-append : (xs ys : Text) → IsLine xs → IsLine ys → IsLine (xs ++ ys)
IsLine-append [] ys h k = k
IsLine-append (c ∷ xs) ys h k = (h.0, IsLine-append xs ys h.1 k)

IsSolid-IsLine : (s : Text) → IsSolid s → IsLine s
IsSolid-IsLine [] h = tt
IsSolid-IsLine (c ∷ s) h = (solid_char c h.0, IsSolid-IsLine s h.1)
  where
    solid_char : (b : ℕ) → is_whitespace b ≡ false → (nat_beq b 10 ≡ false) × (nat_beq b 13 ≡ false)
    solid_char b e = ground arith

-- For a literal.
abbrev no_breaks : Text → Bool
no_breaks [] = true
no_breaks (c ∷ s) = not (nat_beq c 10) && not (nat_beq c 13) && no_breaks s

no_breaks-IsLine : (s : Text) → no_breaks s ≡ true → IsLine s
no_breaks-IsLine [] h = tt
no_breaks-IsLine (c ∷ s) h = ((ground arith, ground arith), no_breaks-IsLine s (ground arith))

strip_prefix-append : (p s : Text) → strip_prefix p (p ++ s) ≡ some s
unfolding strip_prefix
strip_prefix-append [] s = refl
strip_prefix-append (c ∷ p) s = rw (beq_refl c, strip_prefix-append p s) refl

parse_trim-to_string :
    (n : ℕ) (after : Text)
    → n < 2 ^ 64
    → IsBlank after
    → parse_u64 (trim (to_string n ++ after)) ≡ some n
parse_trim-to_string n after h blank =
    let solid = to_digits-IsSolid 20 n in
    let ne = StartsWithDigit-ne-nil (to_string n) (to_digits-StartsWithDigit 19 n (omega arith)) in
    rw (trim_lem [] (to_string n) after tt solid ne blank) (parse_u64-to_string n h)

usage_line_lem : (n : ℕ) → n < 2 ^ 64 → usage_line (text "usage_usec " ++ to_string n) ≡ some n
usage_line_lem n h =
    ap number_in (strip_prefix-append (text "usage_usec ") (to_string n))
    ∙ ap (λ s. parse_u64 (trim s)) (sym (append-nil (to_string n)))
    ∙ parse_trim-to_string n [] h tt

find_map_first :
    (f : Text → Option ℕ) (l : Text) (ls : List Text) (n : ℕ)
    → f l ≡ some n
    → find_map f (l ∷ ls) ≡ some n
unfolding find_map
find_map_first f l ls n e = rw e refl

cpu_stat_lem :
    (n : ℕ) (rest : Text)
    → n < 2 ^ 64
    → cpu_counter (some ((text "usage_usec " ++ to_string n) ++ (10 ∷ rest))) ≡ some n
cpu_stat_lem n rest h =
    let line = text "usage_usec " ++ to_string n in
    let one_line : IsLine line =
      IsLine-append (text "usage_usec ") (to_string n) (no_breaks-IsLine (text "usage_usec ") refl)
        (IsSolid-IsLine (to_string n) (to_digits-IsSolid 20 n)) in
    ap (find_map usage_line) (lines-append line rest one_line)
    ∙ find_map_first usage_line line (lines rest) n (usage_line_lem n h)

module _ (fs : Fs) where
  -- `usage` reads back the two counters that the kernel prints: the number in memory.current, and
  -- the first line of cpu.stat, whatever lines follow it.
  pub usage_reads :
      (parent : FilePath) (handle : Handle) (s : fs.State) (mem cpu : ℕ) (rest : Text)
      → mem < 2 ^ 64
      → cpu < 2 ^ 64
      → fs.read_to_string (join (leaf_of parent handle) (text "memory.current")) s
        ≡ some (to_string mem ++ (10 ∷ []))
      → fs.read_to_string (join (leaf_of parent handle) (text "cpu.stat")) s
        ≡ some ((text "usage_usec " ++ to_string cpu) ++ (10 ∷ rest))
      → usage fs parent handle s ≡ some (record { mem_bytes = mem; cpu_usec = cpu })
  unfolding usage
  usage_reads parent handle s mem cpu rest m c mem_text cpu_text =
      ap₂ both_counters (ap number_in mem_text ∙ parse_trim-to_string mem (10 ∷ []) m (refl, tt))
        (ap cpu_counter cpu_text ∙ cpu_stat_lem cpu rest c)
