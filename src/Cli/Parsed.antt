-- ===== src/Cli/Parsed.antt =====
-- What clap promises of the matches of a command of src/cli.rs.
use mathlib.Core.Option.{some-injective}
use mesh_supervisor.Cli.Values.{
  missing, string, endpoint_id, relay_url, u64, u32, usize, i32, f64, bool, shell,
}
use mesh_supervisor.Prelude.{
  if◌then◌else◌, ◌==◌, nat_eq, string_eq, All, Result, option_ok, ◌>>=◌, is_some, ok, String, ◌≡◌,
  refl, ap, subst, ◌∙◌, Bool, true, false, ◌||◌, Option, none, some, List, [], ◌∷◌, ◌++◌,
}
use mesh_supervisor.Cli.Values.{
  i32, usize, u32, u64, relay_url, endpoint_id, mismatch, first, string, at_type, get_many, ValueOf,
  get_one, expect_one, Ty, Matches, Panic, downcast,
}
use mesh_supervisor.Cli.Tree.{type_of, switch, Tree, Command, Arg, Shape}

abbrev pub is_switch : Shape → Bool
is_switch switch = true
is_switch _ = false

-- A required argument, one with a default, and a switch always have a value.
abbrev pub is_given : Arg → Bool
is_given a = a.required || is_some a.default_value || is_switch a.shape

-- The id is defined with the type of its parser, and has a value if it must.
abbrev pub Given : Matches → (t : Ty) → String → Type 0
Given m t key = (v : ValueOf t) × (vs : List (ValueOf t)) × (m.values key ≡ some (t, v ∷ vs))

abbrev pub Defined : Matches → (t : Ty) → String → Type 0
Defined m t key = (vs : List (ValueOf t)) × (m.values key ≡ some (t, vs))

abbrev pub Holds : Matches → Arg → Type 0
Holds m a =
    if is_given a then Given m (type_of a.parser) a.id else Defined m (type_of a.parser) a.id

-- clap passes the arguments of the tree on to its commands where they are marked `global`.
abbrev pub globals : List Arg → List Arg
globals [] = []
globals (a ∷ args) = if a.global then a ∷ globals args else globals args

-- The arguments of a command, with those of the tree that are global.
abbrev pub all_args : Tree → Command → List Arg
all_args tree cmd = globals tree.args ++ cmd.args

-- The matches of a command line that clap has accepted for a command.
abbrev pub IsParseOf : Tree → Command → Matches → Type 0
IsParseOf tree cmd m = All (Holds m) (all_args tree cmd)

-- `matches.subcommand()` gives a name of the tree.
unfoldable pub find_command : String → List Command → Option Command
find_command name [] = none
find_command name (cmd ∷ cmds) =
    let later = find_command name cmds in if cmd.name == name then some cmd else later

-- What holds of all commands holds of the one that is found, and that has the name.
pub find_command-All :
    (P : Command → Type 0) (name : String) (cmds : List Command) (cmd : Command)
    → find_command name cmds ≡ some cmd
    → All P cmds
    → P cmd × (cmd.name ≡ name)
unfolding find_command
find_command-All P name [] cmd e all = cc
find_command-All P name (c ∷ cmds) cmd e all =
    by_name (c.name == name) refl e (λ k. find_command-All P name cmds cmd k all.1)
  where
    by_name :
        (same : Bool)
        → (c.name == name) ≡ same
        → (if same then some c else find_command name cmds) ≡ some cmd
        → (find_command name cmds ≡ some cmd → P cmd × (cmd.name ≡ name))
        → P cmd × (cmd.name ≡ name)
    by_name true is k later =
        subst (λ x. P x × (x.name ≡ name)) (some-injective _ _ k)
          (all.0, (string_eq.same_key_iff c.name name).0 is)
    by_name false is k later = later k

abbrev pub Succeeds {ℓ} : {A : Type ℓ} → Result Panic A → Type ℓ
Succeeds {A = A} r = (a : A) × (r ≡ ok a)

pub >>=-Succeeds :
    {A B : Type 0} {r : Result Panic A} (f : A → Result Panic B)
    → Succeeds r
    → ((a : A) → Succeeds (f a))
    → Succeeds (r >>= f)
>>=-Succeeds f (a, e) next = let (b, e') = next a in (b, ap (λ x. x >>= f) e ∙ e')

-- The same, where the first value matters to what follows.
pub >>=-known :
    {A B : Type 0} {r : Result Panic A} {a : A} (f : A → Result Panic B)
    → r ≡ ok a
    → Succeeds (f a)
    → Succeeds (r >>= f)
>>=-known f e (b, e') = (b, ap (λ x. x >>= f) e ∙ e')

downcast_same : (t : Ty) (vs : List (ValueOf t)) → downcast t t vs ≡ some vs
unfolding downcast
downcast_same string vs = refl
downcast_same endpoint_id vs = refl
downcast_same relay_url vs = refl
downcast_same u64 vs = refl
downcast_same u32 vs = refl
downcast_same usize vs = refl
downcast_same i32 vs = refl
downcast_same f64 vs = refl
downcast_same bool vs = refl
downcast_same shell vs = refl

module _ (m : Matches) (t : Ty) (key : String) where
  pub get_many-values :
      (vs : List (ValueOf t)) → m.values key ≡ some (t, vs) → get_many m t key ≡ ok vs
  unfolding get_many
  get_many-values vs e = ap (at_type key t) e ∙ ap (option_ok (mismatch key)) (downcast_same t vs)

  pub get_many-Succeeds : Defined m t key → Succeeds (get_many m t key)
  get_many-Succeeds (vs, e) = (vs, get_many-values vs e)

  pub get_one-Succeeds : Defined m t key → Succeeds (get_one m t key)
  unfolding get_one
  get_one-Succeeds (vs, e) = (first vs, ap (λ r. r >>= λ x. ok (first x)) (get_many-values vs e))

  pub expect_one-Succeeds : Given m t key → Succeeds (expect_one m t key)
  unfolding expect_one
  expect_one-Succeeds (v, vs, e) = (
    v,
    ap (λ r. (r >>= λ x. ok (first x)) >>= option_ok (missing key)) (get_many-values (v ∷ vs) e),
  )

-- The type of an argument's values, and whether it always has one.
unfoldable pub signature_at : String → List Arg → Option (Ty × Bool)
signature_at key [] = none
signature_at key (a ∷ args) =
    let later = signature_at key args in
    if a.id == key then some (type_of a.parser, is_given a) else later

module _ (m : Matches) where
  Given-Defined : (t : Ty) (key : String) → Given m t key → Defined m t key
  Given-Defined t key (v, vs, e) = (v ∷ vs, e)

  -- What holds of an argument with this signature.
  abbrev HoldsFor : String → Ty × Bool → Type 0
  HoldsFor key (t, given) = if given then Given m t key else Defined m t key

  signature-Holds :
      (key : String) (args : List Arg) (sig : Ty × Bool)
      → signature_at key args ≡ some sig
      → All (Holds m) args
      → HoldsFor key sig
  unfolding signature_at
  signature-Holds key [] sig e h = cc
  signature-Holds key (a ∷ args) sig e h =
      by_id (a.id == key) refl e λ k. signature-Holds key args sig k h.1
    where
      by_id :
          (same : Bool)
          → (a.id == key) ≡ same
          → (if same then some (type_of a.parser, is_given a) else signature_at key args) ≡ some sig
          → (signature_at key args ≡ some sig → HoldsFor key sig)
          → HoldsFor key sig
      by_id true is k later = subst (HoldsFor key) (some-injective _ _ k) (
          subst (λ id. HoldsFor id (type_of a.parser, is_given a))
            ((string_eq.same_key_iff a.id key).0 is) h.0)
      by_id false is k later = later k

  pub arg-Given :
      (key : String) (args : List Arg) {t : Ty}
      → All (Holds m) args
      → signature_at key args ≡ some (t, true)
      → Given m t key
  arg-Given key args h e = signature-Holds key args _ e h

  pub arg-Defined :
      (key : String) (args : List Arg) {t : Ty} {given : Bool}
      → All (Holds m) args
      → signature_at key args ≡ some (t, given)
      → Defined m t key
  arg-Defined key args {t} {given} h e = weaken given (signature-Holds key args _ e h)
    where
      weaken : (g : Bool) → HoldsFor key (t, g) → Defined m t key
      weaken true = Given-Defined t key
      weaken false = λ d. d
