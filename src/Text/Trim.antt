-- ===== src/Text/Trim.antt =====
-- What `trim` leaves alone and what it removes.
use mesh_supervisor.Prelude.{
  ltb, Bool-cases, All, ℕ, zero, suc, ◌/◌, ◌≡◌, refl, sym, ap, ◌∙◌, ◌≢◌, inl, inr, true, false, [],
  ◌∷◌, ◌++◌, append-nil, arith,
}
use mesh_supervisor.Text.{is_whitespace, Text, trim_start, trim, to_digits, trim_end}

-- No character is whitespace.
abbrev pub IsSolid : Text → Type 0
IsSolid s = All (λ c. is_whitespace c ≡ false) s

abbrev pub IsBlank : Text → Type 0
IsBlank s = All (λ c. is_whitespace c ≡ true) s

pub trim_start-append : (blank s : Text) → IsBlank blank → trim_start (blank ++ s) ≡ trim_start s
unfolding trim_start
trim_start-append [] s h = refl
trim_start-append (c ∷ blank) s h = rw (h.0) (trim_start-append blank s h.1)

trim_end_blank : (blank : Text) → IsBlank blank → trim_end blank ≡ []
unfolding trim_end
trim_end_blank [] h = refl
trim_end_blank (c ∷ blank) h = rw (h.0, trim_end_blank blank h.1) refl

pub trim_end-append : (s blank : Text) → IsBlank blank → trim_end (s ++ blank) ≡ trim_end s
unfolding trim_end
trim_end-append [] blank h = trim_end_blank blank h
trim_end-append (c ∷ s) blank h = rw (trim_end-append s blank h) refl

trim_start_solid : (s : Text) → IsSolid s → trim_start s ≡ s
unfolding trim_start
trim_start_solid [] h = refl
trim_start_solid (c ∷ s) h = rw (h.0) refl

trim_end_solid : (s : Text) → IsSolid s → trim_end s ≡ s
unfolding trim_end
trim_end_solid [] h = refl
trim_end_solid (c ∷ s) h = rw (h.0, trim_end_solid s h.1) refl

trim_start-solid_append : (s rest : Text) → IsSolid s → s ≢ [] → trim_start (s ++ rest) ≡ s ++ rest
unfolding trim_start
trim_start-solid_append [] rest h ne = absurd (ne refl)
trim_start-solid_append (c ∷ s) rest h ne = rw (h.0) refl

-- Blanks around a solid text are trimmed, and nothing else.
pub trim_lem :
    (before s after : Text)
    → IsBlank before
    → IsSolid s
    → s ≢ []
    → IsBlank after
    → trim (before ++ (s ++ after)) ≡ s
unfolding trim
trim_lem before s after b h ne a =
    rw (trim_start-append before (s ++ after) b, trim_start-solid_append s after h ne)
      (trim_end-append s after a ∙ trim_end_solid s h)

pub IsSolid-append : (xs ys : Text) → IsSolid xs → IsSolid ys → IsSolid (xs ++ ys)
IsSolid-append [] ys h k = k
IsSolid-append (c ∷ xs) ys h k = (h.0, IsSolid-append xs ys h.1 k)

pub to_digits-IsSolid : (places n : ℕ) → IsSolid (to_digits places n)
unfolding to_digits
to_digits-IsSolid zero n = tt
to_digits-IsSolid (suc k) n = elim (Bool-cases (ltb n 10)) [
  | inl small ↦ rw small (ground (arith, small), tt)
  | inr large ↦
      rw large
        (IsSolid-append (to_digits k (n / 10)) _ (to_digits-IsSolid k (n / 10)) (ground arith, tt))
]

pub trim_solid : (s : Text) → IsSolid s → s ≢ [] → trim s ≡ s
trim_solid s h ne = ap trim (sym (append-nil s)) ∙ trim_lem [] s [] tt h ne tt
