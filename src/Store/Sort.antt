-- ===== src/Store/Sort.antt =====
-- `sort_by_key` on handles: a stable sort.
use mesh_supervisor.Prelude.{
  leb, nat_beq, if◌then◌else◌, nat_eq, ℕ, ◌≤◌, ◌≡◌, refl, some, List, [], ◌∷◌, arith,
}
use mesh_supervisor.Map.{lookup}
use mesh_supervisor.Proto.{Handle}

module _ {A : Type 0} where
  -- The entry goes before the first entry with a larger or equal key.
  unfoldable pub insert_by_key : Handle → A → List (Handle × A) → List (Handle × A)
  insert_by_key h a [] = (h, a) ∷ []
  insert_by_key h a ((j, b) ∷ xs) =
      if leb h j then (h, a) ∷ (j, b) ∷ xs else (j, b) ∷ insert_by_key h a xs

  unfoldable pub sort_by_key : List (Handle × A) → List (Handle × A)
  unfolding insert_by_key
  sort_by_key [] = []
  sort_by_key ((h, a) ∷ xs) = insert_by_key h a (sort_by_key xs)

  -- Keys rise along the list, from the bound on.
  abbrev pub Ascending : ℕ → List (Handle × A) → Type 0
  Ascending n [] = Unit {0}
  Ascending n ((h, a) ∷ xs) = (n ≤ h) × Ascending h xs

  insert_by_key-Ascending :
      (n h : ℕ) (a : A) (xs : List (Handle × A))
      → n ≤ h
      → Ascending n xs
      → Ascending n (insert_by_key h a xs)
  unfolding insert_by_key
  insert_by_key-Ascending n h a [] le s = ground arith
  insert_by_key-Ascending n h a ((j, b) ∷ xs) le s =
      ground (arith, insert_by_key-Ascending j h a xs)

  pub sort_by_key-Ascending : (xs : List (Handle × A)) → Ascending 0 (sort_by_key xs)
  unfolding sort_by_key
  sort_by_key-Ascending [] = tt
  sort_by_key-Ascending ((h, a) ∷ xs) =
      insert_by_key-Ascending 0 h a (sort_by_key xs) (omega arith) (sort_by_key-Ascending xs)

  lookup-insert_by_key :
      (k h : ℕ) (a : A) (xs : List (Handle × A))
      → lookup k (insert_by_key h a xs) ≡ (if nat_beq h k then some a else lookup k xs)
  unfolding insert_by_key lookup
  lookup-insert_by_key k h a [] = refl
  lookup-insert_by_key k h a ((j, b) ∷ xs) = ground (arith, lookup-insert_by_key k h a xs)

  -- A sorted table answers every lookup as the table did.
  pub lookup-sort_by_key :
      (k : ℕ) (xs : List (Handle × A)) → lookup k (sort_by_key xs) ≡ lookup k xs
  unfolding sort_by_key lookup
  lookup-sort_by_key k [] = refl
  lookup-sort_by_key k ((h, a) ∷ xs) =
      ground (arith, lookup-insert_by_key k h a (sort_by_key xs), lookup-sort_by_key k xs)
