-- ===== src/Commands/Reads/Dispatch.antt =====
-- `main` of src/main.rs on the command lines that the tree of src/cli.rs accepts.
use mesh_supervisor.Cli.Values.{Matches, shell}
use mesh_supervisor.Cli.Tree.{
  required_arg, supervisor_args, handle_arg, signal_command, watch_command, supervise_command,
  spawn_command, handle_command, command, endpoint_arg, client_args, cli, Command,
}
use mesh_supervisor.Prelude.{string_eq, All, ok, String, ◌≡◌, refl, subst, some, [], ◌∷◌}
use mesh_supervisor.Proto.{Handle}
use mesh_supervisor.Commands.Report.{run_forget, run_stop, run_query, Subcommand, run_list}
use mesh_supervisor.Commands.Reads.Total.{
  with_handle-Succeeds, read_stream-Succeeds, read_signal-Succeeds, read_supervise-Succeeds,
  read_spawn-Succeeds, read_watch-Succeeds, read_completions-Succeeds, read_call-Succeeds,
}
use mesh_supervisor.Commands.Reads.{
  with_handle, read_subscribe, read_stdin, read_stream, read_call, read_forget, read_stop,
  read_query, read_list, main,
}
use mesh_supervisor.Commands.Actions.{pipe_input, follow_output, Action, Dial}
use mesh_supervisor.Cli.Parsed.{
  all_args, signature_at, Succeeds, IsParseOf, find_command, find_command-All,
}

abbrev IsServed : Command → Type 0
IsServed cmd = (m : Matches) → IsParseOf cli cmd m → Succeeds (main cmd.name m)

list_command : Command
list_command = client_args (command "list" (endpoint_arg ∷ []))

supervise-IsServed : IsServed supervise_command
unfolding main cli supervise_command supervisor_args signature_at
supervise-IsServed m h =
    read_supervise-Succeeds m (all_args cli supervise_command) h
      (refl, refl, refl, refl, refl, refl, refl, refl, refl, refl, refl, refl, refl)

spawn-IsServed : IsServed spawn_command
unfolding main cli spawn_command client_args endpoint_arg signature_at
spawn-IsServed m h =
    read_spawn-Succeeds m (all_args cli spawn_command) h (refl, refl, (refl, refl, refl, refl))
      (refl, refl, refl, refl, refl, refl, refl)

list-IsServed : IsServed list_command
unfolding main read_list client_args endpoint_arg cli signature_at list_command
list-IsServed m h =
    read_call-Succeeds m (all_args cli list_command) h (ok run_list)
      (refl, refl, (refl, refl, refl, refl)) (_, refl)

signal-IsServed : IsServed signal_command
unfolding main cli signal_command client_args endpoint_arg handle_arg signature_at
signal-IsServed m h =
    read_signal-Succeeds m (all_args cli signal_command) h (refl, refl, (refl, refl, refl, refl))
      refl refl

watch-IsServed : IsServed watch_command
unfolding main cli watch_command client_args signature_at
watch-IsServed m h =
    read_watch-Succeeds m (all_args cli watch_command) h (refl, refl, refl, refl) refl refl refl

-- The commands on one process that send one request.
one_process :
    (name : String) (f : Handle → Subcommand) (m : Matches)
    → IsParseOf cli (handle_command name) m
    → Succeeds (read_call m (with_handle m f))
unfolding cli handle_command client_args endpoint_arg handle_arg signature_at
one_process name f m h =
    read_call-Succeeds m (all_args cli (handle_command name)) h _
      (refl, refl, (refl, refl, refl, refl))
      (with_handle-Succeeds m (all_args cli (handle_command name)) h f refl)

-- And those that stream.
one_stream :
    (name : String) (action : Dial → Handle → Action) (m : Matches)
    → IsParseOf cli (handle_command name) m
    → Succeeds (read_stream m action)
unfolding cli handle_command client_args endpoint_arg handle_arg signature_at
one_stream name action m h =
    read_stream-Succeeds m (all_args cli (handle_command name)) h action
      (refl, refl, (refl, refl, refl, refl)) refl

handle_commands-IsServed :
    IsServed (handle_command "query")
    × IsServed (handle_command "stop")
    × IsServed (handle_command "forget")
    × IsServed (handle_command "stdin")
    × IsServed (handle_command "subscribe")
unfolding main handle_command client_args read_query read_stop read_forget read_stdin read_subscribe
handle_commands-IsServed = (
  one_process "query" run_query,
  one_process "stop" run_stop,
  one_process "forget" run_forget,
  one_stream "stdin" pipe_input,
  one_stream "subscribe" follow_output,
)

cli-IsServed : All IsServed cli.subcommands
unfolding cli list_command main signature_at
cli-IsServed =
    let (query, stop, forget, stdin, subscribe) = handle_commands-IsServed in
    (
      supervise-IsServed,
      (
        spawn-IsServed,
        (
          list-IsServed,
          (
            query,
            (
              signal-IsServed,
              (
                stop,
                (
                  stdin,
                  (
                    subscribe,
                    (
                      forget,
                      (
                        watch-IsServed,
                        (
                          λ m h.
                              read_completions-Succeeds m
                                (all_args cli
                                  (command "completions" (required_arg "shell" shell ∷ [])))
                                h refl,
                          tt,
                        ),
                      ),
                    ),
                  ),
                ),
              ),
            ),
          ),
        ),
      ),
    )

-- On a command line that clap accepts for a command of the tree, `main` finds a runner, and no read of
-- the runner panics. What clap promises is a condition: each argument of the command and each global
-- option is defined with the type of its parser, and has a value if it is required, has a default or is
-- a switch.
pub main-Succeeds :
    (name : String) (cmd : Command) (m : Matches)
    → find_command name cli.subcommands ≡ some cmd
    → IsParseOf cli cmd m
    → Succeeds (main name m)
main-Succeeds name cmd m e h =
    let (served, same) = find_command-All IsServed name cli.subcommands cmd e cli-IsServed in
    subst (λ x. Succeeds (main x m)) same (served m h)
