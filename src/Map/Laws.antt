-- ===== src/Map/Laws.antt =====
-- What a lookup finds after each operation of Map.antt.
use mathlib.Core.Option
use mesh_supervisor.Prelude.{
  if◌then◌else◌, Eq, ◌==◌, beq_refl, beq_ne, ◌≡◌, refl, subst, ◌≢◌, true, Option, none, some, [],
  ◌∷◌, arith,
}
use mesh_supervisor.Map.{Map, lookup, insert, remove, modify}

module _ {ℓ κ} {K : Type ℓ} {V : Type κ} ⦃e : Eq K⦄ where
  pub lookup-insert :
      (k j : K) (new : V) (entries : Map K V)
      → lookup j (insert k new entries) ≡ (if k == j then some new else lookup j entries)
  unfolding lookup insert
  lookup-insert k j v [] = refl
  lookup-insert k j v ((i, old) ∷ entries) = ground (
    arith,
    e.same_key_iff k j,
    e.same_key_iff i k,
    e.same_key_iff i j,
    lookup-insert k j v entries,
  )

  pub lookup-remove :
      (k j : K) (m : Map K V) → lookup j (remove k m) ≡ (if k == j then none else lookup j m)
  unfolding lookup remove
  lookup-remove k j [] = ground arith
  lookup-remove k j ((i, old) ∷ entries) =
      ground (
        arith,
        e.same_key_iff k j,
        e.same_key_iff i k,
        e.same_key_iff i j,
        lookup-remove k j entries,
      )

  pub lookup-modify :
      (k j : K) (f : V → V) (m : Map K V)
      → lookup j (modify k f m) ≡ (if k == j then Option.map f (lookup j m) else lookup j m)
  unfolding lookup modify
  lookup-modify k j f [] = ground arith
  lookup-modify k j f ((i, old) ∷ entries) = ground (
    arith,
    e.same_key_iff k j,
    e.same_key_iff i k,
    e.same_key_iff i j,
    lookup-modify k j f entries,
  )

  pub lookup-insert_self : (k : K) (v : V) (m : Map K V) → lookup k (insert k v m) ≡ some v
  lookup-insert_self k v m = simp (lookup-insert, beq_refl)

  pub lookup-insert_ne :
      (k j : K) (v : V) (m : Map K V) → k ≢ j → lookup j (insert k v m) ≡ lookup j m
  lookup-insert_ne k j v m h = rw (lookup-insert k j v m, beq_ne k j h)

  pub lookup-remove_self : (k : K) (m : Map K V) → lookup k (remove k m) ≡ none
  lookup-remove_self k m = simp (lookup-remove, beq_refl)

  -- The same entry under an equal key.
  pub lookup-eq_key :
      (k j : K) (o : Option V) (m : Map K V) → lookup k m ≡ o → (k == j) ≡ true → lookup j m ≡ o
  lookup-eq_key k j o m at same = subst (λ i. lookup i m ≡ o) ((e.same_key_iff k j).0 same) at
