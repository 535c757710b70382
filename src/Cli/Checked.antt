-- ===== src/Cli/Checked.antt =====
-- What clap asks of the declarations in src/cli.rs before it parses with them, by its documentation:
-- an id stands for one argument, required positional arguments do not follow optional ones, only the
-- last positional argument takes many values, and a default value passes its parser.
use mesh_supervisor.Prelude.{
  ltb, ◌==◌, nat_eq, string_eq, All, Result, is_some, ok, err, ℕ, ◌^◌, String, ◌≡◌, refl, Bool,
  true, false, not, ◌&&◌, ◌||◌, Option, none, some, List, [], ◌∷◌,
}
use mesh_supervisor.Text.{text, parse_u64}
use mesh_supervisor.Cli.{parse_size}
use mesh_supervisor.Cli.Values.{string, u64, u32}
use mesh_supervisor.Cli.Tree.{
  Arg, Command, Parser, typed, size, one_of, positional, option, switch, cli, supervise_command,
  spawn_command, signal_command, handle_command, watch_command, client_args, supervisor_args,
  endpoint_arg, handle_arg,
}
use mesh_supervisor.Cli.Parsed.{all_args, find_command, find_command-All}

abbrev contains : String → List String → Bool
contains s [] = false
contains s (t ∷ ts) = s == t || contains s ts

abbrev is_distinct : List String → Bool
is_distinct [] = true
is_distinct (s ∷ ss) = not (contains s ss) && is_distinct ss

abbrev is_below : ℕ → Option ℕ → Bool
is_below bound none = false
is_below bound (some n) = ltb n bound

abbrev is_ok : {E A : Type 0} → Result E A → Bool
is_ok (ok a) = true
is_ok (err e) = false

-- Whether a text passes; only the parsers of this crate and those of texts and integers are here.
unfoldable pub passes : Parser → String → Bool
passes (typed string) s = true
passes (typed u64) s = is_some (parse_u64 (text s))
passes (typed u32) s = is_below (2 ^ 32) (parse_u64 (text s))
passes (typed t) s = false
passes size s = is_ok (parse_size (text s))
passes (one_of choices) s = contains s choices

abbrev pub default_passes : Arg → Option String → Bool
default_passes a none = true
default_passes a (some s) = passes a.parser s

abbrev pub positionals : List Arg → List Arg
positionals [] = []
positionals (a ∷ args) = elim a.shape [
  | positional ↦ a ∷ positionals args
  | option ↦ positionals args
  | switch ↦ positionals args
]

-- Each positional argument takes one value and is required, but for the last.
unfoldable pub are_ordered : List Arg → Bool
are_ordered [] = true
are_ordered (a ∷ []) = true
are_ordered (a ∷ b ∷ args) =
    not a.repeated && (a.required || not b.required) && are_ordered (b ∷ args)

abbrev ids : List Arg → List String
ids [] = []
ids (a ∷ args) = a.id ∷ ids args

abbrev with_env : Option String → List String → List String
with_env none names = names
with_env (some name) names = name ∷ names

abbrev envs : List Arg → List String
envs [] = []
envs (a ∷ args) = with_env a.env (envs args)

abbrev defaults_pass : List Arg → Bool
defaults_pass [] = true
defaults_pass (a ∷ args) = default_passes a a.default_value && defaults_pass args

-- No flag is given by the environment variable of another, either.
unfoldable pub is_well_declared : List Arg → Bool
unfolding passes are_ordered
is_well_declared args =
    is_distinct (ids args)
    && is_distinct (envs args)
    && are_ordered (positionals args)
    && defaults_pass args

abbrev IsChecked : Command → Type 0
IsChecked cmd = is_well_declared (all_args cli cmd) ≡ true

clients-IsChecked :
    IsChecked (handle_command "query")
    × IsChecked (handle_command "stop")
    × IsChecked (handle_command "stdin")
    × IsChecked (handle_command "subscribe")
    × IsChecked (handle_command "forget")
unfolding is_well_declared cli handle_command client_args endpoint_arg handle_arg
clients-IsChecked = (refl, refl, refl, refl, refl)

cli-IsChecked : All IsChecked cli.subcommands
unfolding is_well_declared cli supervise_command spawn_command signal_command watch_command
    client_args supervisor_args endpoint_arg handle_arg parse_u64
cli-IsChecked =
    let (query, stop, stdin, subscribe, forget) = clients-IsChecked in
    (
      refl,
      (refl, (refl, (query, (refl, (stop, (stdin, (subscribe, (forget, (refl, (refl, tt)))))))))),
    )

-- In every command of the tree, with the global options: an id and an environment variable stand for
-- one argument each, only the last positional argument takes many values, no required one follows an
-- optional one, and every default value passes the parser of its argument.
pub subcommand-IsChecked :
    (name : String) (cmd : Command)
    → find_command name cli.subcommands ≡ some cmd
    → is_well_declared (all_args cli cmd) ≡ true
subcommand-IsChecked name cmd e =
    (find_command-All IsChecked name cli.subcommands cmd e cli-IsChecked).0
