-- ===== src/Client/Retry.antt =====
-- How often `with_retry` of src/client.rs calls, what it returns, and how long it sleeps.
use mesh_supervisor.Prelude.{
  nat_beq, nat_beq_iff, Bool-cases, nat_eq, length, All, Result, ok, err, ℕ, zero, suc, ◌+◌, ◌*◌,
  ◌≤◌, ◌<◌, min, max, ◌≡◌, refl, subst, ◌⊎◌, inl, inr, Bool, true, false, some, [], ◌∷◌, arith,
}
use mesh_supervisor.Client.{with_retry, Tried, after_call, retry_loop}
use mesh_supervisor.Config.{ClientConfig}

abbrev pub is_failure : {E T : Type 0} → Result E T → Bool
is_failure (ok v) = false
is_failure (err e) = true

-- The calls `first`, …, `n`: all but the last fail, and the last succeeds or is the last allowed.
pub record StopsAt {E T : Type 0} (f : ℕ → Result E T) (attempts first n : ℕ) : Type 0 where
  pub in_range : (first ≤ n) × (n ≤ attempts)
  pub failed_before : (i : ℕ) → first ≤ i → i < n → is_failure (f i) ≡ true
  pub settled : (is_failure (f n) ≡ false) ⊎ (n ≡ attempts)

module _ {E T : Type 0} (attempts attempt delay : ℕ) where
  -- The loop is left at a success and at the last attempt.
  after_call_success :
      (r : Result E T) (later : Tried E T)
      → is_failure r ≡ false
      → after_call attempts attempt delay r later ≡ (some r, attempt, [])
  unfolding after_call
  after_call_success (ok v) later h = refl
  after_call_success (err e) later h = cc

  after_call_last :
      (r : Result E T) (later : Tried E T)
      → nat_beq attempt attempts ≡ true
      → after_call attempts attempt delay r later ≡ (some r, attempt, [])
  unfolding after_call
  after_call_last (ok v) later h = refl
  after_call_last (err e) (result, calls, sleeps) h = rw h refl

  after_call_failure :
      (r : Result E T) (later : Tried E T)
      → is_failure r ≡ true
      → nat_beq attempt attempts ≡ false
      → after_call attempts attempt delay r later ≡ (later.0, later.1, delay ∷ later.2)
  unfolding after_call
  after_call_failure (ok v) later h k = cc
  after_call_failure (err e) (result, calls, sleeps) h k = rw k refl

module _ {E T : Type 0} (cfg : ClientConfig) (f : ℕ → Result E T) (attempts : ℕ) where
  -- The loop has made its last call, number `attempt`.
  last_call :
      (attempt : ℕ)
      → attempt ≤ attempts
      → (is_failure (f attempt) ≡ false) ⊎ (attempt ≡ attempts)
      → StopsAt f attempts attempt attempt
  last_call attempt le done = record {
    in_range = omega arith;
    failed_before = λ i h k. absurd (omega arith);
    settled = done;
  }

  earlier_failure :
      (attempt n : ℕ)
      → is_failure (f attempt) ≡ true
      → StopsAt f attempts (attempt + 1) n
      → StopsAt f attempts attempt n
  earlier_failure attempt n failed s = record {
    in_range = omega (arith, s.in_range);
    failed_before = before;
    settled = s.settled;
  }
    where
      before : (i : ℕ) → attempt ≤ i → i < n → is_failure (f i) ≡ true
      before i h k = elim (Bool-cases (nat_beq attempt i)) [
        | inl same ↦ subst (λ j. is_failure (f j) ≡ true) ((nat_beq_iff attempt i).0 same) failed
        | inr later ↦ s.failed_before i (ground arith) k
      ]

  -- What the iterations that are left come to.
  abbrev Ends : ℕ → ℕ → ℕ → Type 0
  Ends attempt delay left =
      (n : ℕ) × StopsAt f attempts attempt n
      × ((retry_loop cfg f attempts attempt delay left).0 ≡ some (f n))
      × ((retry_loop cfg f attempts attempt delay left).1 ≡ n)

  iteration :
      (left attempt delay : ℕ)
      → attempt ≤ attempts
      → (nat_beq attempt attempts ≡ false
          → Ends (attempt + 1) (min (delay * 2) cfg.retry_max_delay) left)
      → Ends attempt delay (suc left)
  unfolding retry_loop
  iteration left attempt delay le later = elim (Bool-cases (is_failure (f attempt))) [
    | inl failed ↦ elim (Bool-cases (nat_beq attempt attempts)) [
      | inl last_one ↦ rw (after_call_last attempts attempt delay (f attempt) _ last_one) (
        attempt,
        last_call attempt le (inr ((nat_beq_iff attempt attempts).0 last_one)),
        refl,
        refl,
      )
      | inr more ↦
          let (n, stops, result, calls) = later more in
          rw (after_call_failure attempts attempt delay (f attempt) _ failed more)
            (n, earlier_failure attempt n failed stops, result, calls)
    ]
    | inr fine ↦
        rw (after_call_success attempts attempt delay (f attempt) _ fine)
          (attempt, last_call attempt le (inl fine), refl, refl)
  ]

  loop-Ends : (left attempt delay : ℕ) → attempt + left ≡ attempts → Ends attempt delay (suc left)
  loop-Ends zero attempt delay e =
      iteration zero attempt delay (omega arith) λ more. absurd (ground arith)
  loop-Ends (suc k) attempt delay e =
      iteration (suc k) attempt delay (omega arith)
        λ more. loop-Ends k (attempt + 1) (min (delay * 2) cfg.retry_max_delay) (omega arith)

  -- A sleep between any two calls, none above a bound.
  abbrev IsPaced : ℕ → ℕ → ℕ → ℕ → Type 0
  IsPaced bound attempt delay left =
      let tried = retry_loop cfg f attempts attempt delay left in
      (attempt + length tried.2 ≡ tried.1) × All (λ s. s ≤ bound) tried.2

  iteration-IsPaced :
      (bound left attempt delay : ℕ)
      → delay ≤ bound
      → (nat_beq attempt attempts ≡ false
          → IsPaced bound (attempt + 1) (min (delay * 2) cfg.retry_max_delay) left)
      → IsPaced bound attempt delay (suc left)
  unfolding retry_loop
  iteration-IsPaced bound left attempt delay le later = elim (Bool-cases (is_failure (f attempt))) [
    | inl failed ↦ elim (Bool-cases (nat_beq attempt attempts)) [
      | inl last_one ↦
          rw (after_call_last attempts attempt delay (f attempt) _ last_one) (omega arith, tt)
      | inr more ↦
          let (count, small) = later more in
          rw (after_call_failure attempts attempt delay (f attempt) _ failed more)
            (omega (arith, count), (le, small))
    ]
    | inr fine ↦ rw (after_call_success attempts attempt delay (f attempt) _ fine) (omega arith, tt)
  ]

  loop-IsPaced :
      (bound left attempt delay : ℕ)
      → cfg.retry_max_delay ≤ bound
      → delay ≤ bound
      → attempt + left ≡ attempts
      → IsPaced bound attempt delay (suc left)
  loop-IsPaced bound zero attempt delay cap le e =
      iteration-IsPaced bound zero attempt delay le λ more. absurd (ground arith)
  loop-IsPaced bound (suc k) attempt delay cap le e =
      iteration-IsPaced bound (suc k) attempt delay le λ more.
        loop-IsPaced bound k (attempt + 1) (min (delay * 2) cfg.retry_max_delay) cap (omega arith)
          (omega arith)

module _ {E T : Type 0} (cfg : ClientConfig) (f : ℕ → Result E T) where
  -- `with_retry` calls at least once and at most as often as the configuration says, also where it
  -- says 0; it stops at the first success and returns it; if there is none it returns the error of
  -- the last call. Its `unreachable!` is not reached.
  pub with_retry-StopsAt :
      (n : ℕ) × StopsAt f (max cfg.max_retries 1) 1 n
      × ((with_retry cfg f).0 ≡ some (f n))
      × ((with_retry cfg f).1 ≡ n)
  unfolding with_retry
  with_retry-StopsAt = by_attempts (max cfg.max_retries 1) (omega arith)
    where
      by_attempts :
          (attempts : ℕ) → 1 ≤ attempts → Ends cfg f attempts 1 cfg.retry_base_delay attempts
      by_attempts zero h = absurd (omega arith)
      by_attempts (suc k) h = loop-Ends cfg f (suc k) k 1 cfg.retry_base_delay (omega arith)

  -- It sleeps one time less than it calls, and never longer than the larger of the first and the
  -- maximal delay.
  pub with_retry_waits :
      (suc (length (with_retry cfg f).2) ≡ (with_retry cfg f).1)
      × All (λ s. s ≤ max cfg.retry_base_delay cfg.retry_max_delay) (with_retry cfg f).2
  unfolding with_retry
  with_retry_waits =
      let (count, small) = by_attempts (max cfg.max_retries 1) (omega arith) in
      (omega (arith, count), small)
    where
      by_attempts :
          (attempts : ℕ)
          → 1 ≤ attempts
          → IsPaced cfg f attempts
              (max cfg.retry_base_delay cfg.retry_max_delay)
              1
              cfg.retry_base_delay
              attempts
      by_attempts zero h = absurd (omega arith)
      by_attempts (suc k) h =
          loop-IsPaced cfg f (suc k) _ k 1 cfg.retry_base_delay (omega arith) (omega arith)
            (omega arith)
