-- ===== src/Cli/Tree.antt =====
-- src/cli.rs: the tree of commands that is given to clap. Help texts are left out.
use mesh_supervisor.Prelude.{
  nat_eq, String, Bool, true, false, Option, none, some, List, [], ◌∷◌, ◌++◌,
}
use mesh_supervisor.Cli.Values.{
  usize, u32, shell, f64, u64, relay_url, i32, string, Ty, bool, endpoint_id,
}

-- `value_parser`: the one for a type, `parse_size`, or a choice between texts.
pub data Parser : Type 0 where
  typed : Ty → Parser
  size : Parser
  one_of : List String → Parser

-- The type of the values that a parser makes.
abbrev pub type_of : Parser → Ty
type_of (typed t) = t
type_of size = u64
type_of (one_of choices) = string

-- A positional argument `<x>` or `[x]`, an option `--x <v>`, or a switch `--x`.
pub data Shape : Type 0 where
  positional option switch : Shape

-- `repeated` is the `...` of `arg!`. `trailing` is `trailing_var_arg` with `allow_hyphen_values`.
pub record Arg : Type 0 where
  pub id : String
  pub shape : Shape
  pub parser : Parser
  pub required : Bool
  pub repeated : Bool
  pub trailing : Bool
  pub global : Bool
  pub env : Option String
  pub default_value : Option String

pub record Command : Type 0 where
  pub name : String
  pub args : List Arg

pub record Tree : Type 0 where
  pub name : String
  pub subcommand_required : Bool
  pub arg_required_else_help : Bool
  pub args : List Arg
  pub subcommands : List Command

abbrev plain : String → Shape → Parser → Bool → Arg
plain id shape parser required = record {
  id = id;
  shape = shape;
  parser = parser;
  required = required;
  repeated = false;
  trailing = false;
  global = false;
  env = none;
  default_value = none;
}

-- `arg!(<id>)`
abbrev pub required_arg : String → Ty → Arg
required_arg id t = plain id positional (typed t) true

-- `arg!(--id <v>)` with `.required(false)` or a default
abbrev option_arg : String → Parser → Arg
option_arg id parser = plain id option parser false

-- `arg!(--id)`
abbrev switch_arg : String → Arg
switch_arg id = plain id switch (typed bool) false

abbrev many : Arg → Arg
many a = record a { repeated = true }

-- An option of a number type with an environment variable.
abbrev knob : String → Ty → String → Arg
knob id t env = record (option_arg id (typed t)) { env = some env }

unfoldable pub endpoint_arg : Arg
endpoint_arg = required_arg "endpoint" endpoint_id

unfoldable pub handle_arg : Arg
handle_arg = required_arg "handle" u64

-- `cmd.arg(…)` appends, so that these stand after the arguments of the command.
unfoldable pub client_args : Command → Command
client_args cmd = record cmd {
  args =
      cmd.args
      ++ knob "read-timeout" u64 "P2P_CLIENT_READ_TIMEOUT_SECS"
        ∷ knob "connect-retries" u32 "P2P_CLIENT_MAX_RETRIES"
        ∷ knob "retry-base-delay-ms" u64 "P2P_CLIENT_RETRY_BASE_DELAY_MS"
        ∷ knob "retry-max-delay-ms" u64 "P2P_CLIENT_RETRY_MAX_DELAY_MS"
        ∷ knob "max-tick-age-ms" u64 "P2P_TELEMETRY_MAX_TICK_AGE_MS"
        ∷ [];
}

unfoldable pub supervisor_args : Command → Command
supervisor_args cmd = record cmd {
  args =
      cmd.args
      ++ knob "request-timeout" u64 "P2P_SUPERVISOR_REQUEST_TIMEOUT_SECS"
        ∷ knob "stop-deadline-secs" u64 "P2P_SUPERVISOR_STOP_DEADLINE_SECS"
        ∷ knob "rate-burst" f64 "P2P_RATE_BURST"
        ∷ knob "rate-refill" f64 "P2P_RATE_REFILL"
        ∷ knob "rate-max-buckets" usize "P2P_RATE_MAX_BUCKETS"
        ∷ knob "rate-eviction-ttl-secs" u64 "P2P_RATE_EVICTION_TTL_SECS"
        ∷ knob "sample-interval-ms" u64 "P2P_TELEMETRY_SAMPLE_INTERVAL_MS"
        ∷ knob "max-tick-age-ms" u64 "P2P_TELEMETRY_MAX_TICK_AGE_MS"
        ∷ [];
}

abbrev pub command : String → List Arg → Command
command name args = record { name = name; args = args }

unfoldable pub supervise_command : Command
unfolding supervisor_args
supervise_command = supervisor_args (
    command "supervise" (
      record (option_arg "store" (typed string)) { default_value = some "mesh-supervisor.redb" }
      ∷ many (option_arg "allow" (typed endpoint_id))
      ∷ many (option_arg "allow-read" (typed endpoint_id))
      ∷ switch_arg "open"
      ∷ many (plain "peer" positional (typed endpoint_id) false)
      ∷ []))

unfoldable pub spawn_command : Command
unfolding client_args endpoint_arg
spawn_command = client_args (
    command "spawn" (
      endpoint_arg
      ∷ option_arg "mem" size
      ∷ option_arg "pids" (typed u64)
      ∷ option_arg "cpu" (typed u64)
      ∷ record (option_arg "restart" (one_of ("never" ∷ "on-failure" ∷ "always" ∷ []))) {
        default_value = some "never";
      }
      ∷ record (option_arg "max-retries" (typed u32)) { default_value = some "5" }
      ∷ switch_arg "isolate"
      ∷ record (many (required_arg "cmd" string)) { trailing = true }
      ∷ []))

unfoldable pub signal_command : Command
unfolding client_args endpoint_arg handle_arg
signal_command =
    client_args (command "signal" (endpoint_arg ∷ handle_arg ∷ required_arg "sig" i32 ∷ []))

-- A client's command on one process: `query`, `stop`, `stdin`, `subscribe` and `forget`.
unfoldable pub handle_command : String → Command
unfolding client_args endpoint_arg handle_arg
handle_command name = client_args (command name (endpoint_arg ∷ handle_arg ∷ []))

unfoldable pub watch_command : Command
unfolding client_args
watch_command = client_args (command "watch" (many (required_arg "bootstrap" endpoint_id) ∷ []))

-- `cli`
unfoldable pub cli : Tree
unfolding supervise_command spawn_command signal_command handle_command watch_command
cli = record {
  name = "mesh-supervisor";
  subcommand_required = true;
  arg_required_else_help = true;
  args =
      record (knob "relay" relay_url "P2P_RELAY") { global = true }
      ∷ record (knob "topic-secret" string "P2P_TOPIC_SECRET") { global = true }
      ∷ [];
  subcommands =
      supervise_command
      ∷ spawn_command
      ∷ client_args (command "list" (endpoint_arg ∷ []))
      ∷ handle_command "query"
      ∷ signal_command
      ∷ handle_command "stop"
      ∷ handle_command "stdin"
      ∷ handle_command "subscribe"
      ∷ handle_command "forget"
      ∷ watch_command
      ∷ command "completions" (required_arg "shell" shell ∷ [])
      ∷ [];
}
