-- ===== src/Examples/CommandLines.antt =====
-- Theorems about the command line at concrete inputs.
use mesh_supervisor.Prelude.{
  nat_eq, string_eq, ok, String, ◌≡◌, refl, true, none, some, List, [], ◌∷◌,
}
use mesh_supervisor.Config.{default_client}
use mesh_supervisor.Config.Overrides.{override_client}
use mesh_supervisor.Commands.Report.{run_query}
use mesh_supervisor.Commands.Reads.{read_query, read_dial, client_config}
use mesh_supervisor.Commands.Actions.{Action, call}
use mesh_supervisor.Commands.Reads.Dials.{main-IsDialed, verb_of, IsDialed}
use mesh_supervisor.Cli.Tree.{
  handle_arg, supervisor_args, endpoint_arg, spawn_command, client_args, handle_command,
  supervise_command, cli,
}
use mesh_supervisor.Commands.Reads.{main}
use mesh_supervisor.Map.{lookup}
use mesh_supervisor.Cli.Parsed.{IsParseOf, find_command, Succeeds}
use mesh_supervisor.Cli.Values.{
  expect_one, get_one, string, endpoint_id, relay_url, u64, u32, Matches, ValueOf, Ty,
}
use mesh_supervisor.Cli.Checked.{is_well_declared, subcommand-IsChecked}
use mesh_supervisor.Cli.Parsed.{all_args}
use mesh_supervisor.Commands.Reads.Dispatch.{main-Succeeds}

abbrev query_values : List (String × ((t : Ty) × List (ValueOf t)))
query_values =
    ("relay", (relay_url, []))
    ∷ ("topic-secret", (string, []))
    ∷ ("endpoint", (endpoint_id, 7 ∷ []))
    ∷ ("handle", (u64, 3 ∷ []))
    ∷ ("read-timeout", (u64, 9 ∷ []))
    ∷ ("connect-retries", (u32, []))
    ∷ ("retry-base-delay-ms", (u64, []))
    ∷ ("retry-max-delay-ms", (u64, []))
    ∷ ("max-tick-age-ms", (u64, []))
    ∷ []

-- `mesh-supervisor query 7 3 --read-timeout 9`, where 7 stands for the id of the endpoint.
abbrev query_matches : Matches
query_matches = record { values = λ key. lookup key query_values }

-- They are the matches of the declaration of `query`.
query_matches-IsParse : IsParseOf cli (handle_command "query") query_matches
unfolding lookup cli handle_command client_args endpoint_arg handle_arg
query_matches-IsParse = (
  ([], refl),
  (
    ([], refl),
    (
      (7, [], refl),
      ((3, [], refl), ((9 ∷ [], refl), (([], refl), (([], refl), (([], refl), (([], refl), tt)))))),
    ),
  ),
)

query_found : find_command "query" cli.subcommands ≡ some (handle_command "query")
unfolding find_command cli supervise_command spawn_command handle_command client_args
    supervisor_args
query_found = refl

main-Succeeds_example : Succeeds (main "query" query_matches)
main-Succeeds_example =
    main-Succeeds "query" (handle_command "query") query_matches query_found query_matches-IsParse

subcommand-IsChecked_example : is_well_declared (all_args cli (handle_command "query")) ≡ true
subcommand-IsChecked_example = subcommand-IsChecked "query" (handle_command "query") query_found

abbrev query_action : Action
query_action =
    call (record { target = 7; relay = none; cfg = record default_client { read_timeout = 9000 } })
      (run_query 3)

query_read : main "query" query_matches ≡ ok query_action
unfolding main read_query read_dial client_config override_client get_one expect_one lookup
query_read = refl

main-IsDialed_example : (verb_of query_action ≡ "query") × IsDialed query_matches query_action
main-IsDialed_example = main-IsDialed query_matches "query" query_action query_read
