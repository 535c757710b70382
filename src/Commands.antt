-- ===== src/Commands.antt =====
-- src/commands.rs: what `supervise` and `spawn` make of their parsed arguments. clap's parsing is
-- outside the model: an argument here is the value that `ArgMatches` holds.
pub mod Rights
pub mod Report
pub mod Expected
pub mod Told
pub mod Calls
pub mod Startup
pub mod Actions
pub mod Reads
pub mod Network
use mesh_supervisor.Prelude.{
  if◌then◌else◌, ◌==◌, string_eq, is_empty, ℕ, String, Bool, not, ◌&&◌, Option, none, some, List,
  [], ◌∷◌,
}
use mesh_supervisor.Proto.{always, on_failure, never, EndpointId, RestartPolicy, Spec}
use mesh_supervisor.Supervisor.{Authz}

-- `authz_from_matches`, from `--open`, `--allow` and `--allow-read`; `none` is the error that
-- nothing is configured.
unfoldable pub authz_from_matches : Bool → List EndpointId → List EndpointId → Option Authz
authz_from_matches is_open control read =
    if not is_open && is_empty control && is_empty read
    then none
    else some (record { is_open = is_open; control = control; read = read })

-- The arguments of the `spawn` subcommand.
pub record SpawnArgs : Type 0 where
  pub cmd : List String
  pub mem : Option ℕ
  pub pids : Option ℕ
  pub cpu : Option ℕ
  pub restart : Option String
  pub max_retries : ℕ
  pub isolate : Bool

unfoldable pub policy_of : Option String → RestartPolicy
policy_of none = never
policy_of (some s) =
    if s == "on-failure" then on_failure else if s == "always" then always else never

-- `spec_from_matches`; `none` is the panic at a command line without a command, which clap rules
-- out.
unfoldable pub spec_from_argv : SpawnArgs → List String → Option Spec
unfolding policy_of
spec_from_argv a [] = none
spec_from_argv a (cmd ∷ args) = some (record {
  cmd = cmd;
  args = args;
  env = [];
  limits = record { memory = a.mem; pids = a.pids; cpu = a.cpu };
  policy = policy_of a.restart;
  max_retries = a.max_retries;
  isolate = a.isolate;
})

unfoldable pub spec_from_matches : SpawnArgs → Option Spec
unfolding spec_from_argv
spec_from_matches a = spec_from_argv a a.cmd
