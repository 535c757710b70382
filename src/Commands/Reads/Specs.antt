-- ===== src/Commands/Reads/Specs.antt =====
-- The spec that `spawn` of src/commands.rs sends, against its command line.
use mathlib.Core.Option.{some-injective}
use mesh_supervisor.Prelude.{
  if◌then◌else◌, ◌==◌, string_eq, option_ok, >>=-eq-ok, option_ok-eq-ok, ok, ℕ, String, ◌≡◌, refl,
  ap, subst, ◌≢◌, Bool, true, false, Option, none, some, List, [], ◌∷◌,
}
use mesh_supervisor.Cli.Values.{
  string, u64, u32, bool, Matches, get_one, get_many, get_flag, expect_one, missing, first,
}
use mesh_supervisor.Commands.{spec_from_matches, policy_of}
use mesh_supervisor.Commands.Reads.{read_spec}
use mesh_supervisor.Commands.Reads.Flags.{expect_one-value}
use mesh_supervisor.Proto.{Spec, RestartPolicy, never, on_failure, always}

-- A policy for each value of `--restart`.
abbrev pub IsPolicy : Option String → RestartPolicy → Type 0
IsPolicy given policy =
    (given ≡ some "on-failure" → policy ≡ on_failure)
    × (given ≡ some "always" → policy ≡ always)
    × (given ≢ some "on-failure" → given ≢ some "always" → policy ≡ never)

policy_of-IsPolicy : (given : Option String) → IsPolicy given (policy_of given)
unfolding policy_of
policy_of-IsPolicy none = (λ e. cc, λ e. cc, λ e k. refl)
policy_of-IsPolicy (some s) = (
  λ e. rw (some-injective _ _ e) refl,
  λ e. rw (some-injective _ _ e) refl,
  λ e k. other (s == "on-failure") (s == "always") refl refl e k,
)
  where
    other :
        (b c : Bool)
        → (s == "on-failure") ≡ b
        → (s == "always") ≡ c
        → some s ≢ some "on-failure"
        → some s ≢ some "always"
        → (if b then on_failure else if c then always else never) ≡ never
    other true c p q e k = absurd (e (ap some ((string_eq.same_key_iff s "on-failure").0 p)))
    other false true p q e k = absurd (k (ap some ((string_eq.same_key_iff s "always").0 q)))
    other false false p q e k = refl

module _ (m : Matches) where
  -- The spec has what the line gives, each field from its own argument.
  pub record IsSpecOf (spec : Spec) : Type 0 where
    pub argv : get_many m string "cmd" ≡ ok (spec.cmd ∷ spec.args)
    pub env : spec.env ≡ []
    pub memory : get_one m u64 "mem" ≡ ok spec.limits.memory
    pub pids : get_one m u64 "pids" ≡ ok spec.limits.pids
    pub cpu : get_one m u64 "cpu" ≡ ok spec.limits.cpu
    pub restart : Option String
    pub restart_given : get_one m string "restart" ≡ ok restart
    pub policy : IsPolicy restart spec.policy
    pub max_retries : get_one m u32 "max-retries" ≡ ok (some spec.max_retries)
    pub isolate : get_one m bool "isolate" ≡ ok (some spec.isolate)

  pub read_spec-IsSpecOf : (spec : Spec) → read_spec m ≡ ok spec → IsSpecOf spec
  unfolding read_spec get_flag spec_from_matches
  read_spec-IsSpecOf spec e =
      let (argv, is_argv, r) = >>=-eq-ok (get_many m string "cmd") _ e in
      let (cmd, is_cmd, r0) = >>=-eq-ok (option_ok (missing "cmd") (first argv)) _ r in
      let (mem, is_mem, r1) = >>=-eq-ok (get_one m u64 "mem") _ r0 in
      let (pids, is_pids, r2) = >>=-eq-ok (get_one m u64 "pids") _ r1 in
      let (cpu, is_cpu, r3) = >>=-eq-ok (get_one m u64 "cpu") _ r2 in
      let (restart, is_restart, r4) = >>=-eq-ok (get_one m string "restart") _ r3 in
      let (retries, is_retries, r5) = >>=-eq-ok (expect_one m u32 "max-retries") _ r4 in
      let (isolate, is_isolate, r6) = >>=-eq-ok (get_flag m "isolate") _ r5 in
      let built = option_ok-eq-ok (missing "cmd") _ r6 in
      from_argv argv mem pids cpu restart retries isolate is_argv is_mem is_pids is_cpu is_restart
        (expect_one-value m u32 "max-retries" retries is_retries)
        (expect_one-value m bool "isolate" isolate is_isolate) built
    where
      from_argv :
          (argv : List String) (mem pids cpu : Option ℕ) (restart : Option String) (retries : ℕ)
          (isolate : Bool)
          → get_many m string "cmd" ≡ ok argv
          → get_one m u64 "mem" ≡ ok mem
          → get_one m u64 "pids" ≡ ok pids
          → get_one m u64 "cpu" ≡ ok cpu
          → get_one m string "restart" ≡ ok restart
          → get_one m u32 "max-retries" ≡ ok (some retries)
          → get_one m bool "isolate" ≡ ok (some isolate)
          → spec_from_matches (record {
            cmd = argv;
            mem = mem;
            pids = pids;
            cpu = cpu;
            restart = restart;
            max_retries = retries;
            isolate = isolate;
          })
            ≡ some spec
          → IsSpecOf spec
      from_argv [] mem pids cpu restart retries isolate a b c d' r x y e = cc
      from_argv (cmd ∷ args) mem pids cpu restart retries isolate a b c d' r x y e =
          subst IsSpecOf (some-injective _ _ e) (record {
            argv = a;
            env = refl;
            memory = b;
            pids = c;
            cpu = d';
            restart = restart;
            restart_given = r;
            policy = policy_of-IsPolicy restart;
            max_retries = x;
            isolate = y;
          })
