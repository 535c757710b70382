-- ===== src/Lib.antt =====
-- mesh-supervisor: a daemon that starts, watches and restarts processes for remote peers, over
-- iroh's QUIC connections, and gossips signed telemetry of them.
--
-- A connection (src/supervisor.rs, `Supervisor`) passes the rate limiter (src/ratelimit.rs,
-- `Ratelimit`), is read as one frame (src/proto.rs, `Proto` and `Proto.Frame`), authorized, and
-- handed to the process manager (src/process.rs, `Process`), whose records a database keeps
-- (src/store.rs, `Store`). Telemetry (src/telemetry.rs, `Telemetry`) publishes the manager's
-- snapshots. A child runs in a cgroup (src/cgroup.rs, `Cgroup`) and restricts itself before it
-- executes its program (src/sandbox.rs, `Sandbox`). `Config` holds the knobs of src/config.rs,
-- `Client` the calls of src/client.rs, `Cli` the command line of src/cli.rs, `Commands` what
-- src/commands.rs and src/main.rs make of it, and `Endpoint` what src/endpoint.rs asks of iroh.
-- `Prelude`, `Map` and `Text` are shared helpers, `Examples` has the theorems at concrete inputs.
--
-- The models and the code:
-- * `Proto` has the types of src/proto.rs, `Proto.Frame` its `write_msg` and `read_msg` on lists of
--   bytes.
-- * `Store` has one function for each operation of src/store.rs. `Store.Database` is the parameter
--   for redb: tables, a read, and a commit of a list of writes; `IsDisk` says what the code relies
--   on. Any call may fail, and the failure is a value. `Store.Files` has `Store::open`, on a
--   parameter for the files, and `store_hide_dir` of src/sandbox.rs.
-- * `Process.State` has the table and the manager. `Process.Launch`, `Table`, `Signals` and `Stdin`
--   have the operations of `ProcessManager`; calls to the kernel are a list of effects.
--   `Process.Launch.Child` is `launch_child` with the leaf and the sandbox, and `Process.Pump` its
--   task that reads the child's stdout, given the number of receivers at each read;
--   `Supervisor.Stream` is the loop that writes the chunks to a client. `Process.Signals.Shutdown`
--   is `kill_all` with its wait. `Process.Restart` has the decisions of `supervise` after an exit.
--   `Process.Supervise` cuts `supervise` at its waits, and at the gap between its last look at
--   `armed` and the relaunch; `Process.Supervise.World` lets the pieces and the requests happen in
--   any order, each piece or request as one step. `Process.Contract` is what a peer may see of the
--   table: which processes are there, which run, and the events that lead from one such view to the
--   next.
-- * `Ratelimit` has the two critical sections of `allow`, and `Ratelimit.Bound` lets those of
--   concurrent calls interleave.
-- * `Supervisor` has `accept` from the limiter to the reply, `authorize` and `dispatch`, each with
--   the calls to the kernel that it makes.
-- * `Telemetry` has `topic_for`, the checks of `accept_tick`, signing and opening, one round of
--   `publish_loop` and one event of `watch_loop`; `Telemetry.Arrival` and `Telemetry.Loop` have the
--   two loops, over the rounds and over the events. Signatures and postcard are the parameter
--   `Crypto`.
-- * `Cgroup` has one function for each of src/cgroup.rs. The file system is the parameter `Fs`,
--   whose `sleep` is what happens in the ten milliseconds between two attempts. A path is the list
--   of its components (`Cgroup.Paths`).
-- * `Sandbox` has `apply` with all it calls: a system call succeeds or fails as the parameter
--   `Kernel` says, and the calls made are kept in order.
-- * `Cli` has `parse_size`, and `Cli.Tree` the tree of `cli()` as data. `Cli.Values` is the
--   parameter for clap: the values of a command line, each with the type that its parser makes, and
--   the reads of them, which panic as clap's documentation says. `Cli.Parsed` says what a command
--   line that clap accepted holds. `Text` has the functions of Rust's `str` that `parse_size` and
--   the cgroups use, on lists of code points.
-- * `Client` has `with_retry`, on a function from the number of a call to its outcome, and
--   `Client.Session` the calls on top of it, over the parameter `Link` for iroh's connection;
--   `Client.Exchange` joins such a call to `accept` by the frames between them, given what the
--   broadcast channel hands the subscription's receiver.
-- * `Config` and `Config.Overrides` have the defaults and `with_cli_overrides`. `Commands` has
--   `authz_from_matches` and `spec_from_matches`, `Commands.Report` what the subcommands make of a
--   response, `Commands.Told` what a user asks and is told in words of its own, `Commands.Reads`
--   what each runner reads of its matches, with the `main` of src/main.rs (an action of
--   `Commands.Actions`), `Commands.Network` what the runners ask of iroh, and `Commands.Startup`
--   what `run_supervise` does before it serves.
--
-- Numbers are natural numbers; wrap-around of u32 and u64 is written out where the code can reach
-- it. Durations are in milliseconds, the limiter's instants in nanoseconds and its tokens in 10^-18
-- of a token, so that its refill is exact: rounding of f64 is left out, and so are a burst or a
-- refill that is negative, infinite or not a number, which the command line lets through. A hash
-- map is an association list that is only observed through lookups, sizes and sorted output. Loops
-- are recursions on lists or on a count that the code has (`rmdir_retry` has fifty rounds), or
-- steps of a relation. Only the wait of `kill_all` runs on fuel: a check for every 50 milliseconds
-- of the deadline and two more, which are enough where the checks are that far apart.
--
-- Not modelled: clap's parsing and its help texts, the script that `completions` prints, what iroh
-- does with the settings it is given, the sandbox on systems other than Linux, logging, and the
-- real-time behaviour of timers.
pub mod Cgroup
pub mod Cli
pub mod Client
pub mod Commands
pub mod Config
pub mod Endpoint
pub mod Examples
pub mod Map
pub mod Prelude
pub mod Process
pub mod Proto
pub mod Ratelimit
pub mod Sandbox
pub mod Store
pub mod Supervisor
pub mod Telemetry
pub mod Text
