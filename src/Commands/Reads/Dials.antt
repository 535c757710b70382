-- ===== src/Commands/Reads/Dials.antt =====
-- What `main` of src/main.rs does with a command line that is read: the command by its name, and the
-- call that src/commands.rs makes for it.
use mesh_supervisor.Prelude.{
  if◌then◌else◌, ◌==◌, string_eq, Result, ◌>>=◌, >>=-eq-ok, ok-injective, ok, err, String, ◌≡◌,
  refl, sym, subst, Bool, true, false, some,
}
use mesh_supervisor.Cli.Values.{
  string, endpoint_id, relay_url, u64, i32, shell, Matches, Panic, get_one, get_many, get_flag,
  expect_one, unreachable,
}
use mesh_supervisor.Commands.Report.{
  Subcommand, run_spawn, run_list, run_query, run_signal, run_stop, run_forget,
}
use mesh_supervisor.Commands.Reads.{
  read_dial, read_call, read_stream, with_handle, read_spec, read_spawn, read_list, read_query,
  read_signal, read_stop, read_forget, read_stdin, read_subscribe, read_supervise, read_watch,
  read_completions, main, client_config, supervisor_config,
}
use mesh_supervisor.Commands.Actions.{
  Action, Dial, supervise, call, pipe_input, follow_output, watch_ticks, complete,
}
use mesh_supervisor.Commands.Reads.Flags.{IsConfigOf, client_config-IsConfigOf, expect_one-value}
use mesh_supervisor.Proto.{Handle}
use mesh_supervisor.Commands.Reads.Specs.{IsSpecOf, read_spec-IsSpecOf}

-- The name of the command that an action belongs to.
abbrev pub verb_of : Action → String
verb_of (supervise run) = "supervise"
verb_of (call dial (run_spawn spec)) = "spawn"
verb_of (call dial run_list) = "list"
verb_of (call dial (run_query id)) = "query"
verb_of (call dial (run_signal id sig)) = "signal"
verb_of (call dial (run_stop id)) = "stop"
verb_of (call dial (run_forget id)) = "forget"
verb_of (pipe_input dial id) = "stdin"
verb_of (follow_output dial id) = "subscribe"
verb_of (watch_ticks run) = "watch"
verb_of (complete chosen) = "completions"

module _ (m : Matches) where
  -- A call goes to the endpoint that the line gives, by its relay if it gives one, and with the values
  -- of its flags.
  pub record DialsAs (dial : Dial) : Type 0 where
    pub target : get_one m endpoint_id "endpoint" ≡ ok (some dial.target)
    pub relay : get_one m relay_url "relay" ≡ ok dial.relay
    pub cfg : IsConfigOf m dial.cfg

  abbrev pub IsHandle : Handle → Type 0
  IsHandle id = get_one m u64 "handle" ≡ ok (some id)

  -- What is asked is what the line gives.
  abbrev pub Names : Subcommand → Type 0
  Names (run_spawn spec) = IsSpecOf m spec
  Names run_list = Unit {0}
  Names (run_query id) = IsHandle id
  Names (run_signal id sig) = IsHandle id × (get_one m i32 "sig" ≡ ok (some sig))
  Names (run_stop id) = IsHandle id
  Names (run_forget id) = IsHandle id

  abbrev pub IsDialed : Action → Type 0
  IsDialed (call dial cmd) = DialsAs dial × Names cmd
  IsDialed (pipe_input dial id) = DialsAs dial × IsHandle id
  IsDialed (follow_output dial id) = DialsAs dial × IsHandle id
  IsDialed _ = Unit {0}

  read_dial-DialsAs : (dial : Dial) → read_dial m ≡ ok dial → DialsAs dial
  unfolding read_dial
  read_dial-DialsAs dial e =
      let (cfg, is_cfg, e1) = >>=-eq-ok (client_config m) _ e in
      let (target, is_target, e2) = >>=-eq-ok (expect_one m endpoint_id "endpoint") _ e1 in
      let (relay, is_relay, e3) = >>=-eq-ok (get_one m relay_url "relay") _ e2 in
      subst DialsAs (ok-injective e3) (record {
        target = expect_one-value m endpoint_id "endpoint" target is_target;
        relay = is_relay;
        cfg = client_config-IsConfigOf m cfg is_cfg;
      })

  expect_one-IsHandle : (id : Handle) → expect_one m u64 "handle" ≡ ok id → IsHandle id
  expect_one-IsHandle id e = expect_one-value m u64 "handle" id e

  -- An action of the command `verb`, as the line asks.
  abbrev IsOf : String → Action → Type 0
  IsOf verb a = (verb_of a ≡ verb) × IsDialed a

  call-IsOf :
      (verb : String) (subcommand : Result Panic Subcommand) (a : Action)
      → read_call m subcommand ≡ ok a
      → ((cmd : Subcommand) (dial : Dial)
          → subcommand ≡ ok cmd
          → (verb_of (call dial cmd) ≡ verb) × Names cmd)
      → IsOf verb a
  call-IsOf verb subcommand a e asks =
      let (target, is_target, e1) = >>=-eq-ok (expect_one m endpoint_id "endpoint") _ e in
      let (cmd, is_cmd, e2) = >>=-eq-ok subcommand _ e1 in
      let (dial, is_dial, e3) = >>=-eq-ok (read_dial m) _ e2 in
      let (same, names) = asks cmd dial is_cmd in
      subst (IsOf verb) (ok-injective e3) (same, (read_dial-DialsAs dial is_dial, names))

  handle-IsOf :
      (verb : String) (f : Handle → Subcommand) (a : Action)
      → read_call m (with_handle m f) ≡ ok a
      → ((id : Handle) (dial : Dial)
          → IsHandle id
          → (verb_of (call dial (f id)) ≡ verb) × Names (f id))
      → IsOf verb a
  handle-IsOf verb f a e asks = call-IsOf verb (with_handle m f) a e λ cmd dial k.
      let (id, is_id, k1) = >>=-eq-ok (expect_one m u64 "handle") _ k in
      subst (λ c. (verb_of (call dial c) ≡ verb) × Names c) (ok-injective k1)
        (asks id dial (expect_one-IsHandle id is_id))

  stream-IsOf :
      (verb : String) (action : Dial → Handle → Action) (a : Action)
      → read_stream m action ≡ ok a
      → ((dial : Dial) (id : Handle) → DialsAs dial → IsHandle id → IsOf verb (action dial id))
      → IsOf verb a
  stream-IsOf verb action a e asks =
      let (id, is_id, e1) = >>=-eq-ok (expect_one m u64 "handle") _ e in
      let (dial, is_dial, e2) = >>=-eq-ok (read_dial m) _ e1 in
      subst (IsOf verb) (ok-injective e2)
        (asks dial id (read_dial-DialsAs dial is_dial) (expect_one-IsHandle id is_id))

  spawn-IsOf : (a : Action) → read_spawn m ≡ ok a → IsOf "spawn" a
  unfolding read_spawn
  spawn-IsOf a e = call-IsOf "spawn" (read_spec m >>= λ spec. ok (run_spawn spec)) a e λ cmd dial k.
      let (spec, is_spec, k1) = >>=-eq-ok (read_spec m) _ k in
      subst (λ c. (verb_of (call dial c) ≡ "spawn") × Names c) (ok-injective k1)
        (refl, read_spec-IsSpecOf m spec is_spec)

  list-IsOf : (a : Action) → read_list m ≡ ok a → IsOf "list" a
  unfolding read_list
  list-IsOf a e = call-IsOf "list" (ok run_list) a e λ cmd dial k.
      subst (λ c. (verb_of (call dial c) ≡ "list") × Names c) (ok-injective k) (refl, tt)

  signal-IsOf : (a : Action) → read_signal m ≡ ok a → IsOf "signal" a
  unfolding read_signal
  signal-IsOf a e = call-IsOf "signal" _ a e λ cmd dial k.
      let (id, is_id, k1) = >>=-eq-ok (expect_one m u64 "handle") _ k in
      let (sig, is_sig, k2) = >>=-eq-ok (expect_one m i32 "sig") _ k1 in
      subst (λ c. (verb_of (call dial c) ≡ "signal") × Names c) (ok-injective k2)
        (refl, (expect_one-IsHandle id is_id, expect_one-value m i32 "sig" sig is_sig))

  handles-IsOf :
      (a : Action)
      → (read_query m ≡ ok a → IsOf "query" a)
        × (read_stop m ≡ ok a → IsOf "stop" a)
        × (read_forget m ≡ ok a → IsOf "forget" a)
        × (read_stdin m ≡ ok a → IsOf "stdin" a)
        × (read_subscribe m ≡ ok a → IsOf "subscribe" a)
  unfolding read_query read_stop read_forget read_stdin read_subscribe
  handles-IsOf a = (
    λ e. handle-IsOf "query" run_query a e (λ id dial h. (refl, h)),
    λ e. handle-IsOf "stop" run_stop a e (λ id dial h. (refl, h)),
    λ e. handle-IsOf "forget" run_forget a e (λ id dial h. (refl, h)),
    λ e. stream-IsOf "stdin" pipe_input a e (λ dial id d h. (refl, (d, h))),
    λ e. stream-IsOf "subscribe" follow_output a e (λ dial id d h. (refl, (d, h))),
  )

  -- The commands that call nobody.
  supervise-IsOf : (a : Action) → read_supervise m ≡ ok a → IsOf "supervise" a
  unfolding read_supervise
  supervise-IsOf a e =
      let (cfg, e0, r) = >>=-eq-ok (supervisor_config m) _ e in
      let (peers, e1, r1) = >>=-eq-ok (get_many m endpoint_id "peer") _ r in
      let (path, e2, r2) = >>=-eq-ok (expect_one m string "store") _ r1 in
      let (relay, e3, r3) = >>=-eq-ok (get_one m relay_url "relay") _ r2 in
      let (is_open, e4, r4) = >>=-eq-ok (get_flag m "open") _ r3 in
      let (control, e5, r5) = >>=-eq-ok (get_many m endpoint_id "allow") _ r4 in
      let (readers, e6, r6) = >>=-eq-ok (get_many m endpoint_id "allow-read") _ r5 in
      let (secret, e7, r7) = >>=-eq-ok (get_one m string "topic-secret") _ r6 in
      subst (IsOf "supervise") (ok-injective r7) (refl, tt)

  watch-IsOf : (a : Action) → read_watch m ≡ ok a → IsOf "watch" a
  unfolding read_watch
  watch-IsOf a e =
      let (cfg, e0, r) = >>=-eq-ok (client_config m) _ e in
      let (peers, e1, r1) = >>=-eq-ok (get_many m endpoint_id "bootstrap") _ r in
      let (relay, e2, r2) = >>=-eq-ok (get_one m relay_url "relay") _ r1 in
      let (secret, e3, r3) = >>=-eq-ok (get_one m string "topic-secret") _ r2 in
      subst (IsOf "watch") (ok-injective r3) (refl, tt)

  completions-IsOf : (a : Action) → read_completions m ≡ ok a → IsOf "completions" a
  unfolding read_completions
  completions-IsOf a e =
      let (chosen, e0, r) = >>=-eq-ok (expect_one m shell "shell") _ e in
      subst (IsOf "completions") (ok-injective r) (refl, tt)

  -- One test of the name.
  by_name :
      (name verb : String) (x y : Result Panic Action) (a : Action)
      → (x ≡ ok a → IsOf verb a)
      → (y ≡ ok a → IsOf name a)
      → (if name == verb then x else y) ≡ ok a
      → IsOf name a
  by_name name verb x y a here later e = by_test (name == verb) refl e
    where
      by_test : (same : Bool) → (name == verb) ≡ same → (if same then x else y) ≡ ok a → IsOf name a
      by_test true is k =
          subst (λ n. IsOf n a) (sym ((string_eq.same_key_iff name verb).0 is)) (here k)
      by_test false is k = later k

  -- A command line that is read leads to the action of its own command. If that calls a supervisor, it
  -- dials the endpoint that the line gives, through its relay if it gives one, with the timeout, retries
  -- and delays of its flags and the defaults of the others, and asks about the handle, the signal or
  -- the spec of the line.
  pub main-IsDialed :
      (name : String) (a : Action) → main name m ≡ ok a → (verb_of a ≡ name) × IsDialed a
  unfolding main
  main-IsDialed name a =
      let (query, stop, forget, stdin, subscribe) = handles-IsOf a in
      by_name name "supervise" _ _ a (supervise-IsOf a) (
        by_name name "spawn" _ _ a (spawn-IsOf a) (
          by_name name "list" _ _ a (list-IsOf a) (
            by_name name "query" _ _ a query (
              by_name name "signal" _ _ a (signal-IsOf a) (
                by_name name "stop" _ _ a stop (
                  by_name name "stdin" _ _ a stdin (
                    by_name name "subscribe" _ _ a subscribe (
                      by_name name "forget" _ _ a forget (
                        by_name name "watch" _ _ a (watch-IsOf a) (
                          by_name name "completions" _ (err unreachable) a (completions-IsOf a)
                            (λ e. cc)))))))))))
