-- ===== src/Commands/Reads.antt =====
-- What src/main.rs and src/commands.rs read of the matches of each subcommand, and src/config.rs of
-- its flags: the actions of the runners with their arguments.
pub mod Total
pub mod Dispatch
pub mod Flags
pub mod Specs
pub mod Dials
use mesh_supervisor.Commands.Report.{
  Subcommand, run_spawn, run_list, run_query, run_signal, run_stop, run_forget,
}
use mesh_supervisor.Config.Overrides.{override_supervisor, override_client, ArgMatches}
use mesh_supervisor.Prelude.{
  if◌then◌else◌, ◌==◌, nat_eq, string_eq, Result, option_ok, ◌>>=◌, ok, err, ℕ, String, Option,
  none, some, List, [], ◌∷◌,
}
use mesh_supervisor.Commands.{spec_from_matches}
use mesh_supervisor.Cli.Values.{
  shell, unreachable, missing, get_flag, relay_url, usize, string, u32, get_many, f64, i32,
  endpoint_id, first, u64, expect_one, get_one, ValueOf, Panic, Matches, Ty,
}
use mesh_supervisor.Config.{default_supervisor, default_client, SupervisorConfig, ClientConfig}
use mesh_supervisor.Proto.{Spec, Handle}
use mesh_supervisor.Commands.Actions.{
  Dial, Action, supervise, call, pipe_input, follow_output, watch_ticks, complete,
}

abbrev integer_at : Option ((t : Ty) × List (ValueOf t)) → Option ℕ
integer_at (some (u64, vs)) = first vs
integer_at (some (u32, vs)) = first vs
integer_at (some (usize, vs)) = first vs
integer_at _ = none

abbrev float_at : Option ((t : Ty) × List (ValueOf t)) → Option ℕ
float_at (some (f64, vs)) = first vs
float_at _ = none

-- The numbers of the flags, as `Config.Overrides` reads them.
abbrev pub flags_of : Matches → ArgMatches
flags_of m = record {
  get_one = λ key. integer_at (m.values key);
  get_f64 = λ key. float_at (m.values key);
}

-- `get_one` at each of these keys, which panics at the first that cannot be read.
unfoldable pub reads : Matches → List (Ty × String) → Result Panic (Unit {0})
reads m [] = ok tt
reads m ((t, key) ∷ keys) = do v ← get_one m t key; reads m keys

abbrev pub client_keys : List (Ty × String)
client_keys =
    (u64, "read-timeout")
    ∷ (u32, "connect-retries")
    ∷ (u64, "retry-base-delay-ms")
    ∷ (u64, "retry-max-delay-ms")
    ∷ []

abbrev pub supervisor_keys : List (Ty × String)
supervisor_keys =
    (u64, "request-timeout")
    ∷ (u64, "stop-deadline-secs")
    ∷ (f64, "rate-burst")
    ∷ (f64, "rate-refill")
    ∷ (usize, "rate-max-buckets")
    ∷ (u64, "rate-eviction-ttl-secs")
    ∷ []

-- `with_cli_overrides` of the client's configuration. Its telemetry keys are read by `try_get_one`,
-- which does not panic.
unfoldable pub client_config : Matches → Result Panic ClientConfig
unfolding reads
client_config m = do u ← reads m client_keys; ok (override_client (flags_of m) default_client)

unfoldable pub supervisor_config : Matches → Result Panic SupervisorConfig
unfolding reads
supervisor_config m = do
  u ← reads m supervisor_keys
  ok (override_supervisor (flags_of m) default_supervisor)

-- The head of `client_streaming`.
unfoldable pub read_dial : Matches → Result Panic Dial
unfolding client_config
read_dial m = do
  cfg ← client_config m
  target ← expect_one m endpoint_id "endpoint"
  relay ← get_one m relay_url "relay"
  ok (record { target = target; relay = relay; cfg = cfg })

-- `spec_from_matches`
unfoldable pub read_spec : Matches → Result Panic Spec
read_spec m = do
  argv ← get_many m string "cmd"
  cmd ← option_ok (missing "cmd") (first argv)
  mem ← get_one m u64 "mem"
  pids ← get_one m u64 "pids"
  cpu ← get_one m u64 "cpu"
  restart ← get_one m string "restart"
  max_retries ← expect_one m u32 "max-retries"
  isolate ← get_flag m "isolate"
  option_ok (missing "cmd") (
      spec_from_matches (record {
        cmd = argv;
        mem = mem;
        pids = pids;
        cpu = cpu;
        restart = restart;
        max_retries = max_retries;
        isolate = isolate;
      }))

-- A call of a supervisor, with what the runner reads before it dials.
abbrev pub read_call : Matches → Result Panic Subcommand → Result Panic Action
read_call m subcommand = do
  target ← expect_one m endpoint_id "endpoint"
  cmd ← subcommand
  dial ← read_dial m
  ok (call dial cmd)

abbrev pub with_handle : {A : Type 0} → Matches → (Handle → A) → Result Panic A
with_handle m f = do id ← expect_one m u64 "handle"; ok (f id)

unfoldable pub read_spawn : Matches → Result Panic Action
unfolding read_spec read_dial
read_spawn m = read_call m (do spec ← read_spec m; ok (run_spawn spec))

unfoldable pub read_list : Matches → Result Panic Action
unfolding read_dial
read_list m = read_call m (ok run_list)

unfoldable pub read_query : Matches → Result Panic Action
unfolding read_dial
read_query m = read_call m (with_handle m run_query)

unfoldable pub read_signal : Matches → Result Panic Action
unfolding read_dial
read_signal m =
    read_call m
      (do id ← expect_one m u64 "handle"; sig ← expect_one m i32 "sig"; ok (run_signal id sig))

unfoldable pub read_stop : Matches → Result Panic Action
unfolding read_dial
read_stop m = read_call m (with_handle m run_stop)

unfoldable pub read_forget : Matches → Result Panic Action
unfolding read_dial
read_forget m = read_call m (with_handle m run_forget)

abbrev pub read_stream : Matches → (Dial → Handle → Action) → Result Panic Action
read_stream m action = do id ← expect_one m u64 "handle"; dial ← read_dial m; ok (action dial id)

unfoldable pub read_stdin : Matches → Result Panic Action
unfolding read_dial
read_stdin m = read_stream m pipe_input

unfoldable pub read_subscribe : Matches → Result Panic Action
unfolding read_dial
read_subscribe m = read_stream m follow_output

unfoldable pub read_supervise : Matches → Result Panic Action
unfolding supervisor_config
read_supervise m = do
  cfg ← supervisor_config m
  bootstrap ← get_many m endpoint_id "peer"
  store_path ← expect_one m string "store"
  relay ← get_one m relay_url "relay"
  is_open ← get_flag m "open"
  control ← get_many m endpoint_id "allow"
  read ← get_many m endpoint_id "allow-read"
  topic_secret ← get_one m string "topic-secret"
  ok (
      supervise (record {
        args = record { cfg = cfg; is_open = is_open; control = control; read = read };
        store_path = store_path;
        relay = relay;
        topic_secret = topic_secret;
        bootstrap = bootstrap;
      }))

unfoldable pub read_watch : Matches → Result Panic Action
unfolding client_config
read_watch m = do
  cfg ← client_config m
  bootstrap ← get_many m endpoint_id "bootstrap"
  relay ← get_one m relay_url "relay"
  topic_secret ← get_one m string "topic-secret"
  ok (
      watch_ticks
        (record { cfg = cfg; relay = relay; topic_secret = topic_secret; bootstrap = bootstrap }))

unfoldable pub read_completions : Matches → Result Panic Action
read_completions m = do chosen ← expect_one m shell "shell"; ok (complete chosen)

-- The match of `main` on `matches.subcommand()`.
unfoldable pub main : String → Matches → Result Panic Action
main name m =
    if name == "supervise"
    then read_supervise m
    else if name == "spawn"
    then read_spawn m
    else if name == "list"
    then read_list m
    else if name == "query"
    then read_query m
    else if name == "signal"
    then read_signal m
    else if name == "stop"
    then read_stop m
    else if name == "stdin"
    then read_stdin m
    else if name == "subscribe"
    then read_subscribe m
    else if name == "forget"
    then read_forget m
    else if name == "watch"
    then read_watch m
    else if name == "completions"
    then read_completions m
    else err unreachable
