-- ===== src/Commands/Reads/Flags.antt =====
-- The flags of src/config.rs, as src/cli.rs declares them.
use mesh_supervisor.Prelude.{
  option_ok, ◌>>=◌, >>=-eq-ok, option_ok-eq-ok, ok-injective, ok, ℕ, String, ◌≡◌, sym, ap, subst,
  ◌∙◌, Option, none, some, List,
}
use mesh_supervisor.Cli.Values.{expect_one, missing}
use mesh_supervisor.Config.{ClientConfig, default_client}
use mesh_supervisor.Config.Overrides.{override, secs, override_client}
use mathlib.Core.Option.{some-injective}
use mesh_supervisor.Cli.Values.{
  string, endpoint_id, relay_url, u64, u32, usize, i32, f64, bool, shell, Ty, ValueOf, Matches,
  downcast, at_type, first, get_many, get_one, mismatch,
}
use mesh_supervisor.Commands.Reads.{integer_at, reads, client_keys, client_config}

-- A value has the type at which it is read.
downcast-eq :
    (P : (t : Ty) → List (ValueOf t) → Type 0) (s t : Ty) (vs : List (ValueOf s))
    (ws : List (ValueOf t))
    → downcast s t vs ≡ some ws
    → P t ws
    → P s vs
unfolding downcast
downcast-eq P string string vs ws e p = subst (P string) (sym (some-injective _ _ e)) p
downcast-eq P endpoint_id endpoint_id vs ws e p =
    subst (P endpoint_id) (sym (some-injective _ _ e)) p
downcast-eq P relay_url relay_url vs ws e p = subst (P relay_url) (sym (some-injective _ _ e)) p
downcast-eq P u64 u64 vs ws e p = subst (P u64) (sym (some-injective _ _ e)) p
downcast-eq P u32 u32 vs ws e p = subst (P u32) (sym (some-injective _ _ e)) p
downcast-eq P usize usize vs ws e p = subst (P usize) (sym (some-injective _ _ e)) p
downcast-eq P i32 i32 vs ws e p = subst (P i32) (sym (some-injective _ _ e)) p
downcast-eq P f64 f64 vs ws e p = subst (P f64) (sym (some-injective _ _ e)) p
downcast-eq P bool bool vs ws e p = subst (P bool) (sym (some-injective _ _ e)) p
downcast-eq P shell shell vs ws e p = subst (P shell) (sym (some-injective _ _ e)) p
downcast-eq P _ _ vs ws e p = cc

module _ (m : Matches) where
  -- A read that succeeds says what the line gives under the key.
  by_type :
      (key : String) (t : Ty) (Q : Option ((s : Ty) × List (ValueOf s)) → Type 0)
      (o : Option ((s : Ty) × List (ValueOf s))) (v : Option (ValueOf t))
      → (at_type key t o >>= λ vs. ok (first vs)) ≡ ok v
      → ((ws : List (ValueOf t)) → first ws ≡ v → Q (some (t, ws)))
      → Q o
  by_type key t Q none v e q = cc
  by_type key t Q (some (s, vs)) v e q =
      let (ws, typed, e1) = >>=-eq-ok (option_ok (mismatch key) (downcast s t vs)) _ e in
      downcast-eq (λ s' us. Q (some (s', us))) s t vs ws
        (option_ok-eq-ok (mismatch key) (downcast s t vs) typed) (q ws (ok-injective e1))

  get_one-u64 :
      (key : String) (v : Option ℕ) → get_one m u64 key ≡ ok v → integer_at (m.values key) ≡ v
  unfolding get_one get_many
  get_one-u64 key v e = by_type key u64 (λ o. integer_at o ≡ v) (m.values key) v e (λ ws h. h)

  get_one-u32 :
      (key : String) (v : Option ℕ) → get_one m u32 key ≡ ok v → integer_at (m.values key) ≡ v
  unfolding get_one get_many
  get_one-u32 key v e = by_type key u32 (λ o. integer_at o ≡ v) (m.values key) v e (λ ws h. h)

  pub expect_one-value :
      (t : Ty) (key : String) (v : ValueOf t)
      → expect_one m t key ≡ ok v
      → get_one m t key ≡ ok (some v)
  unfolding expect_one
  expect_one-value t key v e =
      let (o, given, e1) = >>=-eq-ok (get_one m t key) _ e in
      given ∙ ap ok (option_ok-eq-ok (missing key) o e1)

  -- The configuration has the values of the flags that are given, and the defaults of the others.
  pub record IsConfigOf (cfg : ClientConfig) : Type 0 where
    pub timeout : Option ℕ
    pub retries : Option ℕ
    pub base : Option ℕ
    pub cap : Option ℕ
    pub timeout_given : get_one m u64 "read-timeout" ≡ ok timeout
    pub retries_given : get_one m u32 "connect-retries" ≡ ok retries
    pub base_given : get_one m u64 "retry-base-delay-ms" ≡ ok base
    pub cap_given : get_one m u64 "retry-max-delay-ms" ≡ ok cap
    pub read_timeout : cfg.read_timeout ≡ override timeout secs default_client.read_timeout
    pub max_retries : cfg.max_retries ≡ override retries (λ n. n) default_client.max_retries
    pub base_delay : cfg.retry_base_delay ≡ override base (λ n. n) default_client.retry_base_delay
    pub max_delay : cfg.retry_max_delay ≡ override cap (λ n. n) default_client.retry_max_delay

  pub client_config-IsConfigOf : (cfg : ClientConfig) → client_config m ≡ ok cfg → IsConfigOf cfg
  unfolding client_config reads override_client
  client_config-IsConfigOf cfg e =
      let (u, all, e1) = >>=-eq-ok (reads m client_keys) _ e in
      let (timeout, is_timeout, rest) = >>=-eq-ok (get_one m u64 "read-timeout") _ all in
      let (retries, is_retries, rest1) = >>=-eq-ok (get_one m u32 "connect-retries") _ rest in
      let (base, is_base, rest2) = >>=-eq-ok (get_one m u64 "retry-base-delay-ms") _ rest1 in
      let (cap, is_cap, rest3) = >>=-eq-ok (get_one m u64 "retry-max-delay-ms") _ rest2 in
      let same = sym (ok-injective e1) in
      record {
        timeout = timeout;
        retries = retries;
        base = base;
        cap = cap;
        timeout_given = is_timeout;
        retries_given = is_retries;
        base_given = is_base;
        cap_given = is_cap;
        read_timeout =
            ap (λ (x : ClientConfig). x.read_timeout) same
            ∙ ap (λ o. override o secs default_client.read_timeout)
                (get_one-u64 "read-timeout" timeout is_timeout);
        max_retries =
            ap (λ (x : ClientConfig). x.max_retries) same
            ∙ ap (λ o. override o (λ n. n) default_client.max_retries)
                (get_one-u32 "connect-retries" retries is_retries);
        base_delay =
            ap (λ (x : ClientConfig). x.retry_base_delay) same
            ∙ ap (λ o. override o (λ n. n) default_client.retry_base_delay)
                (get_one-u64 "retry-base-delay-ms" base is_base);
        max_delay =
            ap (λ (x : ClientConfig). x.retry_max_delay) same
            ∙ ap (λ o. override o (λ n. n) default_client.retry_max_delay)
                (get_one-u64 "retry-max-delay-ms" cap is_cap);
      }
