-- ===== src/Map.antt =====
-- `std::collections::HashMap`, as an association list with at most one entry for a key. The order
-- of the list stands for the iteration order, which the standard library leaves open.
pub mod Laws
pub mod Size
use mesh_supervisor.Prelude.{if◌then◌else◌, Eq, ◌==◌, Bool, Option, none, some, List, [], ◌∷◌}

abbrev pub Map {ℓ κ} : Type ℓ → Type κ → Type (ℓ ⊔ κ)
Map K V = List (K × V)

module _ {ℓ κ} {K : Type ℓ} {V : Type κ} ⦃e : Eq K⦄ where
  -- `get`
  unfoldable pub lookup : K → Map K V → Option V
  lookup k [] = none
  lookup k ((j, v) ∷ m) = if j == k then some v else lookup k m

  -- `insert`: an old value is overwritten in place.
  unfoldable pub insert : K → V → Map K V → Map K V
  insert k v [] = (k, v) ∷ []
  insert k v ((j, old) ∷ entries) =
      if j == k then (k, v) ∷ entries else (j, old) ∷ insert k v entries

  -- `remove`
  unfoldable pub remove : K → Map K V → Map K V
  remove k [] = []
  remove k ((j, old) ∷ entries) =
      let rest = remove k entries in if j == k then rest else (j, old) ∷ rest

  -- `if let Some(e) = get_mut(k) { f(e) }`
  unfoldable pub modify : K → (V → V) → Map K V → Map K V
  modify k f [] = []
  modify k f ((j, old) ∷ entries) = (j, if j == k then f old else old) ∷ modify k f entries

module _ {ℓ κ} {K : Type ℓ} {V : Type κ} where
  -- `retain`
  unfoldable pub retain : (K → V → Bool) → Map K V → Map K V
  retain p [] = []
  retain p ((j, old) ∷ entries) =
      let rest = retain p entries in if p j old then (j, old) ∷ rest else rest

  abbrev pub keys : Map K V → List K
  keys [] = []
  keys ((j, old) ∷ entries) = j ∷ keys entries
