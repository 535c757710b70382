-- ===== src/Cgroup/Parent.antt =====
-- Which directory `parent_with_memory` of src/cgroup.rs settles on.
use mathlib.Core.Option
use mathlib.Core.Option.{some-injective}
use mesh_supervisor.Prelude.{
  if◌then◌else◌, ◌≡◌, refl, subst, ◌≢◌, Bool, true, false, not, Option, none, some, [], ◌∷◌, arith,
}
use mesh_supervisor.Cgroup.Paths.{same_path, mount, is_below, FilePath}
use mesh_supervisor.Cgroup.{parent_with_memory, grants_memory, nearest_parent, Fs}

none-ne-some : {B : Type 0} {x : B} → ◌≢◌ {A = Option B} none (some x)
none-ne-some h = cc

bind-some :
    {A B : Type 0} (o : Option A) (f : A → Option B) (b : B)
    → Option.bind o f ≡ some b
    → (a : A) × (o ≡ some a) × (f a ≡ some b)
unfolding Option.bind
bind-some none f b e = absurd (none-ne-some e)
bind-some (some a) f b e = (a, refl, e)

module _ (fs : Fs) where
  nearest_parent_lem :
      (s : fs.State) (dir p : FilePath)
      → nearest_parent fs s dir ≡ some p
      → (is_below mount p ≡ true) × (grants_memory fs p s ≡ true)
  unfolding nearest_parent
  nearest_parent_lem s [] p e = absurd (ground (arith, e))
  nearest_parent_lem s (name ∷ parent) p e =
      by_tests (is_below mount parent) (grants_memory fs parent s) (same_path parent mount) refl
        refl e (nearest_parent_lem s parent p)
    where
      by_tests :
          (below grants root : Bool)
          → is_below mount parent ≡ below
          → grants_memory fs parent s ≡ grants
          → (if not below
              then none
              else if grants
              then some parent
              else if root
              then none
              else nearest_parent fs s parent)
            ≡ some p
          → (nearest_parent fs s parent ≡ some p
              → (is_below mount p ≡ true) × (grants_memory fs p s ≡ true))
          → (is_below mount p ≡ true) × (grants_memory fs p s ≡ true)
      by_tests false grants root b g found later = absurd (ground (arith, found))
      by_tests true true root b g found later =
          subst (λ q. (is_below mount q ≡ true) × (grants_memory fs q s ≡ true))
            (some-injective _ _ found) (b, g)
      by_tests true false true b g found later = absurd (ground (arith, found))
      by_tests true false false b g found later = later found

  -- The directory that is chosen lies in the cgroup file system, and its subtree_control grants the
  -- memory controller.
  pub parent_with_memory_lem :
      (s : fs.State) (p : FilePath)
      → parent_with_memory fs s ≡ some p
      → (is_below mount p ≡ true) × (grants_memory fs p s ≡ true)
  unfolding parent_with_memory
  parent_with_memory_lem s p e =
      let (dir, own, found) = bind-some _ (nearest_parent fs s) p e in
      nearest_parent_lem s dir p found
