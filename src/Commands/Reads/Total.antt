-- ===== src/Commands/Reads/Total.antt =====
-- The runners of src/commands.rs against the tree of src/cli.rs: what is read is there.
use mesh_supervisor.Cli.Values.{
  get_flag, get_many, expect_one, Panic, Ty, Matches, string, endpoint_id, relay_url, u64, u32,
  usize, i32, f64, bool, shell,
}
use mesh_supervisor.Cli.Tree.{Arg}
use mesh_supervisor.Prelude.{
  string_eq, All, Result, String, ◌≡◌, refl, Bool, true, false, some, List, [], ◌∷◌,
}
use mesh_supervisor.Commands.{spec_from_matches}
use mesh_supervisor.Commands.Report.{Subcommand}
use mesh_supervisor.Proto.{Handle}
use mesh_supervisor.Cli.Parsed.{
  get_many-values, >>=-known, get_many-Succeeds, arg-Given, arg-Defined, signature_at, Holds,
  expect_one-Succeeds, get_one-Succeeds, >>=-Succeeds, Succeeds, Defined, Given,
}
use mesh_supervisor.Commands.Reads.{
  supervisor_keys, supervisor_config, read_spec, read_supervise, read_spawn, read_completions,
  read_watch, read_stream, read_call, with_handle, read_signal, read_dial, client_keys, reads,
  client_config,
}
use mesh_supervisor.Commands.Actions.{Action, Dial}

module _ (m : Matches) where
  -- Each of the keys is defined with the type it is read at.
  abbrev Reads : List (Ty × String) → Type 0
  Reads keys = All (λ k. Defined m k.0 k.1) keys

  reads-Succeeds : (keys : List (Ty × String)) → Reads keys → Succeeds (reads m keys)
  unfolding reads
  reads-Succeeds [] h = (tt, refl)
  reads-Succeeds ((t, key) ∷ keys) h =
      >>=-Succeeds _ (get_one-Succeeds m t key h.0) λ v. reads-Succeeds keys h.1

  client_config-Succeeds : Reads client_keys → Succeeds (client_config m)
  unfolding client_config
  client_config-Succeeds h = >>=-Succeeds _ (reads-Succeeds client_keys h) λ u. (_, refl)

  module _ (args : List Arg) (h : All (Holds m) args) where
    -- The type at which a key is defined, and whether it always has a value.
    abbrev pub Signs : String → Ty → Bool → Type 0
    Signs key t given = signature_at key args ≡ some (t, given)

    abbrev pub IsClientConfig : Type 0
    IsClientConfig =
        Signs "read-timeout" u64 false
        × Signs "connect-retries" u32 false
        × Signs "retry-base-delay-ms" u64 false
        × Signs "retry-max-delay-ms" u64 false

    -- The arguments of a client's command.
    abbrev pub IsClient : Type 0
    IsClient = Signs "endpoint" endpoint_id true × Signs "relay" relay_url false × IsClientConfig

    config-Succeeds : IsClientConfig → Succeeds (client_config m)
    config-Succeeds (timeout, retries, base, cap) = client_config-Succeeds (
      arg-Defined m "read-timeout" args h timeout,
      (
        arg-Defined m "connect-retries" args h retries,
        (
          arg-Defined m "retry-base-delay-ms" args h base,
          (arg-Defined m "retry-max-delay-ms" args h cap, tt),
        ),
      ),
    )

    target-Succeeds : IsClient → Succeeds (expect_one m endpoint_id "endpoint")
    target-Succeeds c =
        expect_one-Succeeds m endpoint_id "endpoint" (arg-Given m "endpoint" args h c.0)

    pub read_dial-Succeeds : IsClient → Succeeds (read_dial m)
    unfolding read_dial
    read_dial-Succeeds c = >>=-Succeeds _ (config-Succeeds c.2) λ cfg.
        >>=-Succeeds _ (target-Succeeds c) λ target.
          >>=-Succeeds _ (get_one-Succeeds m relay_url "relay" (arg-Defined m "relay" args h c.1))
            λ url. (_, refl)

    pub read_call-Succeeds :
        (subcommand : Result Panic Subcommand)
        → IsClient
        → Succeeds subcommand
        → Succeeds (read_call m subcommand)
    read_call-Succeeds subcommand c s =
        >>=-Succeeds _ (target-Succeeds c)
          λ target. >>=-Succeeds _ s λ cmd. >>=-Succeeds _ (read_dial-Succeeds c) λ dial. (_, refl)

    pub with_handle-Succeeds :
        {A : Type 0} (f : Handle → A) → Signs "handle" u64 true → Succeeds (with_handle m f)
    with_handle-Succeeds f e =
        >>=-Succeeds _ (expect_one-Succeeds m u64 "handle" (arg-Given m "handle" args h e))
          λ id. (_, refl)

    pub read_stream-Succeeds :
        (action : Dial → Handle → Action)
        → IsClient
        → Signs "handle" u64 true
        → Succeeds (read_stream m action)
    read_stream-Succeeds action c e =
        >>=-Succeeds _ (expect_one-Succeeds m u64 "handle" (arg-Given m "handle" args h e))
          λ id. >>=-Succeeds _ (read_dial-Succeeds c) λ dial. (_, refl)

    pub read_signal-Succeeds :
        IsClient → Signs "handle" u64 true → Signs "sig" i32 true → Succeeds (read_signal m)
    unfolding read_signal
    read_signal-Succeeds c e k = read_call-Succeeds _ c (
        >>=-Succeeds _ (expect_one-Succeeds m u64 "handle" (arg-Given m "handle" args h e)) λ id.
          >>=-Succeeds _ (expect_one-Succeeds m i32 "sig" (arg-Given m "sig" args h k))
            λ sig. (_, refl))

    -- The arguments of `spawn` beyond those of a client.
    abbrev pub IsSpawn : Type 0
    IsSpawn =
        Signs "cmd" string true
        × Signs "mem" u64 false
        × Signs "pids" u64 false
        × Signs "cpu" u64 false
        × Signs "restart" string true
        × Signs "max-retries" u32 true
        × Signs "isolate" bool true

    pub read_spec-Succeeds : IsSpawn → Succeeds (read_spec m)
    unfolding read_spec get_flag spec_from_matches
    read_spec-Succeeds (cmd, mem, pids, cpu, restart, retries, isolate) =
        from_argv (arg-Given m "cmd" args h cmd)
      where
        from_argv : Given m string "cmd" → Succeeds (read_spec m)
        from_argv (v, vs, e) = >>=-known _ (get_many-values m string "cmd" (v ∷ vs) e) (
            >>=-Succeeds _ (get_one-Succeeds m u64 "mem" (arg-Defined m "mem" args h mem)) λ a.
              >>=-Succeeds _ (get_one-Succeeds m u64 "pids" (arg-Defined m "pids" args h pids)) λ b.
                >>=-Succeeds _ (get_one-Succeeds m u64 "cpu" (arg-Defined m "cpu" args h cpu)) λ c.
                  >>=-Succeeds _
                    (get_one-Succeeds m string "restart" (arg-Defined m "restart" args h restart))
                    λ p.
                      >>=-Succeeds _
                        (expect_one-Succeeds m u32 "max-retries"
                          (arg-Given m "max-retries" args h retries))
                        λ n.
                          >>=-Succeeds _
                            (expect_one-Succeeds m bool "isolate"
                              (arg-Given m "isolate" args h isolate))
                            λ i. (_, refl))

    pub read_spawn-Succeeds : IsClient → IsSpawn → Succeeds (read_spawn m)
    unfolding read_spawn
    read_spawn-Succeeds c s =
        read_call-Succeeds _ c (>>=-Succeeds _ (read_spec-Succeeds s) λ spec. (_, refl))

    abbrev pub IsSupervise : Type 0
    IsSupervise =
        Signs "peer" endpoint_id false
        × Signs "store" string true
        × Signs "relay" relay_url false
        × Signs "open" bool true
        × Signs "allow" endpoint_id false
        × Signs "allow-read" endpoint_id false
        × Signs "topic-secret" string false
        × Signs "request-timeout" u64 false
        × Signs "stop-deadline-secs" u64 false
        × Signs "rate-burst" f64 false
        × Signs "rate-refill" f64 false
        × Signs "rate-max-buckets" usize false
        × Signs "rate-eviction-ttl-secs" u64 false

    many_at : (key : String) → Signs key endpoint_id false → Succeeds (get_many m endpoint_id key)
    many_at key e = get_many-Succeeds m endpoint_id key (arg-Defined m key args h e)

    pub read_supervise-Succeeds : IsSupervise → Succeeds (read_supervise m)
    unfolding read_supervise get_flag
    read_supervise-Succeeds
          (
            peer, store, relay, is_open, allow, read, topic, timeout, deadline, burst, refill,
            buckets, ttl,
          ) =
        >>=-Succeeds _ config λ cfg. >>=-Succeeds _ (many_at "peer" peer) λ peers.
          >>=-Succeeds _ (expect_one-Succeeds m string "store" (arg-Given m "store" args h store))
            λ path.
              >>=-Succeeds _
                (get_one-Succeeds m relay_url "relay" (arg-Defined m "relay" args h relay))
                λ url.
                  >>=-Succeeds _
                    (expect_one-Succeeds m bool "open" (arg-Given m "open" args h is_open))
                    λ o. >>=-Succeeds _ (many_at "allow" allow) λ c.
                      >>=-Succeeds _ (many_at "allow-read" read) λ r.
                        >>=-Succeeds _
                          (get_one-Succeeds m string "topic-secret"
                            (arg-Defined m "topic-secret" args h topic))
                          λ t. (_, refl)
      where
        config : Succeeds (supervisor_config m)
        config =
            >>=-Succeeds _
              (reads-Succeeds supervisor_keys (
                arg-Defined m "request-timeout" args h timeout,
                (
                  arg-Defined m "stop-deadline-secs" args h deadline,
                  (
                    arg-Defined m "rate-burst" args h burst,
                    (
                      arg-Defined m "rate-refill" args h refill,
                      (
                        arg-Defined m "rate-max-buckets" args h buckets,
                        (arg-Defined m "rate-eviction-ttl-secs" args h ttl, tt),
                      ),
                    ),
                  ),
                ),
              ))
              λ u. (_, refl)

    pub read_watch-Succeeds :
        IsClientConfig
        → Signs "bootstrap" endpoint_id true
        → Signs "relay" relay_url false
        → Signs "topic-secret" string false
        → Succeeds (read_watch m)
    unfolding read_watch
    read_watch-Succeeds c e k t = >>=-Succeeds _ (config-Succeeds c) λ cfg.
        >>=-Succeeds _
          (get_many-Succeeds m endpoint_id "bootstrap" (arg-Defined m "bootstrap" args h e))
          λ b.
            >>=-Succeeds _ (get_one-Succeeds m relay_url "relay" (arg-Defined m "relay" args h k))
              λ u.
                >>=-Succeeds _
                  (get_one-Succeeds m string "topic-secret" (arg-Defined m "topic-secret" args h t))
                  λ s. (_, refl)

    pub read_completions-Succeeds : Signs "shell" shell true → Succeeds (read_completions m)
    unfolding read_completions
    read_completions-Succeeds e =
        >>=-Succeeds _ (expect_one-Succeeds m shell "shell" (arg-Given m "shell" args h e))
          λ s. (_, refl)
