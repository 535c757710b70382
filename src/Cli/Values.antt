-- ===== src/Cli/Values.antt =====
-- The values that clap keeps for src/cli.rs, by the Rust type that `value_parser!` names, and the
-- reads of them in `ArgMatches`. What a read promises is clap's documentation: `get_one` and its like
-- panic at an id that the command does not define and at another type than the argument's.
use mesh_supervisor.Prelude.{
  nat_eq, Result, option_ok, ◌>>=◌, ℤ, ok, err, ℕ, String, Bool, Option, none, some, List, [], ◌∷◌,
}
use mesh_supervisor.Proto.{EndpointId}

pub data Ty : Type 0 where
  string endpoint_id relay_url u64 u32 usize i32 f64 bool shell : Ty

-- An f64 is in units of 10^-9.
abbrev pub ValueOf : Ty → Type 0
ValueOf string = String
ValueOf endpoint_id = EndpointId
ValueOf relay_url = String
ValueOf u64 = ℕ
ValueOf u32 = ℕ
ValueOf usize = ℕ
ValueOf i32 = ℤ
ValueOf f64 = ℕ
ValueOf bool = Bool
ValueOf shell = String

-- The values at a type, if they have it.
unfoldable pub downcast : (s t : Ty) → List (ValueOf s) → Option (List (ValueOf t))
downcast string string vs = some vs
downcast endpoint_id endpoint_id vs = some vs
downcast relay_url relay_url vs = some vs
downcast u64 u64 vs = some vs
downcast u32 u32 vs = some vs
downcast usize usize vs = some vs
downcast i32 i32 vs = some vs
downcast f64 f64 vs = some vs
downcast bool bool vs = some vs
downcast shell shell vs = some vs
downcast _ _ vs = none

-- The ids that a command defines, each with its type and the values it was given.
pub record Matches : Type 0 where
  pub values : String → Option ((t : Ty) × List (ValueOf t))

pub data Panic : Type 0 where
  undefined mismatch missing : String → Panic
  unreachable : Panic

abbrev pub first {ℓ} : {A : Type ℓ} → List A → Option A
first [] = none
first (x ∷ xs) = some x

abbrev pub at_type :
    String → (t : Ty) → Option ((s : Ty) × List (ValueOf s)) → Result Panic (List (ValueOf t))
at_type key t none = err (undefined key)
at_type key t (some (s, vs)) = option_ok (mismatch key) (downcast s t vs)

-- `get_many`, with no values for `None`.
unfoldable pub get_many : Matches → (t : Ty) → String → Result Panic (List (ValueOf t))
unfolding downcast
get_many m t key = at_type key t (m.values key)

-- `get_one`
unfoldable pub get_one : Matches → (t : Ty) → String → Result Panic (Option (ValueOf t))
unfolding get_many
get_one m t key = do vs ← get_many m t key; ok (first vs)

-- `get_one(…).expect(…)`
unfoldable pub expect_one : Matches → (t : Ty) → String → Result Panic (ValueOf t)
unfolding get_one
expect_one m t key = do v ← get_one m t key; option_ok (missing key) v

-- `get_flag`
unfoldable pub get_flag : Matches → String → Result Panic Bool
unfolding expect_one
get_flag m key = expect_one m bool key
