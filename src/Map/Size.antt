-- ===== src/Map/Size.antt =====
-- How the operations of Map.antt change the number of entries and the set of keys.
use mesh_supervisor.Prelude.{Eq, length, ◌+◌, ◌≤◌, ◌≡◌, refl, ap, Bool, some, [], ◌∷◌, arith}
use mesh_supervisor.Map.{Map, lookup, insert, remove, modify, retain, keys}

module _ {ℓ κ} {K : Type ℓ} {V : Type κ} ⦃e : Eq K⦄ where
  pub length-insert : (k : K) (v : V) (m : Map K V) → length (insert k v m) ≤ length m + 1
  unfolding insert
  length-insert k v [] = omega arith
  length-insert k v ((j, w) ∷ m) = ground (arith, length-insert k v m)

  pub length-insert_old :
      (k : K) (v w : V) (m : Map K V) → lookup k m ≡ some w → length (insert k v m) ≡ length m
  unfolding insert lookup
  length-insert_old k v w [] h = cc
  length-insert_old k v w ((j, u) ∷ m) h = ground (arith, length-insert_old k v w m)

  pub length-remove : (k : K) (m : Map K V) → length (remove k m) ≤ length m
  unfolding remove
  length-remove k [] = omega arith
  length-remove k ((j, w) ∷ m) = ground (arith, length-remove k m)

  -- Removing a key that is there makes the map smaller.
  pub length-remove_old :
      (k : K) (w : V) (m : Map K V) → lookup k m ≡ some w → length (remove k m) + 1 ≤ length m
  unfolding remove lookup
  length-remove_old k w [] h = cc
  length-remove_old k w ((j, u) ∷ m) h = ground (arith, length-remove_old k w m, length-remove k m)

  pub keys-modify : (k : K) (f : V → V) (m : Map K V) → keys (modify k f m) ≡ keys m
  unfolding modify
  keys-modify k f [] = refl
  keys-modify k f ((j, w) ∷ m) = ap (◌∷◌ j) (keys-modify k f m)

module _ {ℓ κ} {K : Type ℓ} {V : Type κ} where
  pub length-retain : (p : K → V → Bool) (m : Map K V) → length (retain p m) ≤ length m
  unfolding retain
  length-retain p [] = omega arith
  length-retain p ((j, w) ∷ m) = ground (arith, length-retain p m)
