-- ===== src/Process/Signals/Shutdown.antt =====
-- src/process.rs: `kill_all` with its wait, which polls the table until no child runs or the deadline
-- is over. Times are in milliseconds.
use mesh_supervisor.Prelude.{
  ltb, if◌then◌else◌, ltb-not_lt, Bool-cases, ◌==◌, nat_eq, ℤ, ℕ, zero, suc, ◌+◌, ◌*◌, ◌/◌, ◌≤◌,
  ◌<◌, ◌≡◌, refl, ap, subst, ◌⊎◌, inl, inr, Bool, true, false, ◌&&◌, ◌||◌, Option, none, some, List,
  [], ◌∷◌, arith,
}
use mesh_supervisor.Process.Table.{any_running}
use mesh_supervisor.Process.Signals.{kill_all_last, kill_all_first}
use mesh_supervisor.Process.State.{Effect, Manager, ProcEntry}
use mesh_supervisor.Map.{Map, lookup}
use mesh_supervisor.Proto.{Handle, is_running}
use native.Mathlib.Nat.{eq-or-lt_of_le}
use mesh_supervisor.Process.Signals.Targets.{Some}
use mathlib.Core.Option.{some-injective}
use mesh_supervisor.Store.Database.{Disk}

module _ (d : Disk) where
  -- The time and the manager that the n-th check of the loop finds.
  abbrev pub Polls : Type 0
  Polls = ℕ → ℕ × Manager d

  -- The loop from its n-th check, with fuel for so many: the check that ends it.
  unfoldable pub wait_loop : Polls → ℕ → ℕ → ℕ → Option ℕ
  unfolding any_running
  wait_loop polls deadline n zero = none
  wait_loop polls deadline n (suc fuel) =
      let later = wait_loop polls deadline (n + 1) fuel in
      if ltb (polls n).0 deadline && any_running d (polls n).1.procs then later else some n

  -- The last check, the signals before the wait and the calls after it.
  abbrev pub after_wait :
      Polls → List ℤ → List Effect → Option ℕ → Option (ℕ × List Effect × List Effect)
  after_wait polls pids terms none = none
  after_wait polls pids terms (some n) = some (n, terms, kill_all_last d (polls n).1 pids)

  -- `kill_all`, started at the time `now`.
  unfoldable pub kill_all : ℕ → Manager d → ℕ → Polls → Option (ℕ × List Effect × List Effect)
  unfolding wait_loop
  kill_all fuel m now polls =
      let (m', pids, terms) = kill_all_first d m in
      after_wait polls pids terms (wait_loop polls (now + m.stop_deadline) 0 fuel)

  loop_ends :
      (polls : Polls) (deadline : ℕ)
      → ((n : ℕ) → (polls n).0 + 50 ≤ (polls (n + 1)).0)
      → (left n : ℕ) → deadline ≤ (polls n).0 + 50 * left
      → (last : ℕ) × (wait_loop polls deadline n (suc left) ≡ some last)
        × (last ≤ n + left)
        × ((deadline ≤ (polls last).0) ⊎ (any_running d (polls last).1.procs ≡ false))
  unfolding wait_loop
  loop_ends polls deadline paced zero n due =
      let over : ltb (polls n).0 deadline ≡ false = ltb-not_lt _ _ (omega arith) in
      rw over (n, refl, omega arith, inl (omega arith))
  loop_ends polls deadline paced (suc left) n due =
      elim (Bool-cases (ltb (polls n).0 deadline && any_running d (polls n).1.procs)) [
        | inr ends ↦ rw ends (n, refl, omega arith, ended n ends)
        | inl goes_on ↦
            let (last, e, bound, why) =
              loop_ends polls deadline paced left (n + 1) (omega (arith, paced n)) in
            rw goes_on (last, e, omega arith, why)
      ]
    where
      ended :
          (n : ℕ)
          → (ltb (polls n).0 deadline && any_running d (polls n).1.procs) ≡ false
          → (deadline ≤ (polls n).0) ⊎ (any_running d (polls n).1.procs ≡ false)
      ended n e = by_time (ltb (polls n).0 deadline) refl e
        where
          by_time :
              (early : Bool)
              → ltb (polls n).0 deadline ≡ early
              → (early && any_running d (polls n).1.procs) ≡ false
              → (deadline ≤ (polls n).0) ⊎ (any_running d (polls n).1.procs ≡ false)
          by_time true is k = inr k
          by_time false is k = inl (ground (arith, is))

  -- No entry of the table is `Running`.
  abbrev pub IsIdle : Map Handle ProcEntry → Type 0
  IsIdle procs =
      (h : Handle) (e : ProcEntry) → lookup h procs ≡ some e → is_running e.status ≡ false

  any_running-IsIdle : (procs : Map Handle ProcEntry) → any_running d procs ≡ false → IsIdle procs
  unfolding any_running lookup
  any_running-IsIdle [] idle h e at = cc
  any_running-IsIdle ((j, p) ∷ rest) idle h e at =
      let (gone, below) = both_false (is_running p.status) (any_running d rest) idle in
      by_key (j == h) at gone (any_running-IsIdle rest below h e)
    where
      both_false : (a b : Bool) → (a || b) ≡ false → (a ≡ false) × (b ≡ false)
      both_false a b k = ground (arith, k)

      by_key :
          (same : Bool)
          → (if same then some p else lookup h rest) ≡ some e
          → is_running p.status ≡ false
          → (lookup h rest ≡ some e → is_running e.status ≡ false)
          → is_running e.status ≡ false
      by_key true k gone later =
          subst (λ (x : ProcEntry). is_running x.status ≡ false) (some-injective _ _ k) gone
      by_key false k gone later = later k

  -- Some entry of the table is `Running`.
  abbrev pub Runs : Map Handle ProcEntry → Type 0
  Runs = Some λ e. is_running e.status ≡ true

  any_running-Runs : (procs : Map Handle ProcEntry) → any_running d procs ≡ true → Runs procs
  unfolding any_running
  any_running-Runs [] k = cc
  any_running-Runs ((j, p) ∷ rest) k = elim (Bool-cases (is_running p.status)) [
    | inl live ↦ inl live
    | inr gone ↦ inr (any_running-Runs rest (ground (arith, k, gone)))
  ]

  -- A check that does not end the loop found the deadline ahead and an entry that runs.
  waits_before :
      (polls : Polls) (deadline fuel n last : ℕ)
      → wait_loop polls deadline n fuel ≡ some last
      → (k : ℕ) → n ≤ k
      → k < last
      → ((polls k).0 < deadline) × Runs (polls k).1.procs
  unfolding wait_loop
  waits_before polls deadline zero n last e k from before = cc
  waits_before polls deadline (suc fuel) n last e k from before =
      elim (Bool-cases (ltb (polls n).0 deadline && any_running d (polls n).1.procs)) [
        | inr ends ↦ absurd (ground (arith, e, ends, from, before))
        | inl goes_on ↦ elim (eq-or-lt_of_le from) [
          | inl same ↦
              subst (λ i. ((polls i).0 < deadline) × Runs (polls i).1.procs) same
                (
                  ground (arith, goes_on),
                  any_running-Runs (polls n).1.procs (ground (arith, goes_on)),
                )
          | inr above ↦
              waits_before polls deadline fuel (n + 1) last (ground (arith, e, goes_on)) k
                (omega (arith, above)) before
        ]
      ]

  -- `kill_all` returns, after at most one check for every 50 milliseconds of the deadline and one
  -- more, if the checks are 50 milliseconds apart or more and the first is not before the start. It
  -- ends at the first check that finds the deadline over or no entry running: at each check before, the
  -- deadline was ahead and some entry ran. The calls are those of `kill_all_first` and, on the
  -- table of the last check, of `kill_all_last`.
  pub kill_all_ends :
      (m : Manager d) (now : ℕ) (polls : Polls)
      → ((n : ℕ) → (polls n).0 + 50 ≤ (polls (n + 1)).0)
      → now ≤ (polls 0).0
      → let (m', pids, terms) = kill_all_first d m in
        (last : ℕ) × (kill_all (suc (m.stop_deadline / 50 + 1)) m now polls
          ≡ some (last, terms, kill_all_last d (polls last).1 pids))
        × (last ≤ m.stop_deadline / 50 + 1)
        × ((now + m.stop_deadline ≤ (polls last).0) ⊎ IsIdle (polls last).1.procs)
        × ((k : ℕ) → k < last → ((polls k).0 < now + m.stop_deadline) × Runs (polls k).1.procs)
  unfolding kill_all
  kill_all_ends m now polls paced starts =
      let (last, e, bound, why) =
        loop_ends polls (now + m.stop_deadline) paced (m.stop_deadline / 50 + 1) 0 (omega arith) in
      (
        last,
        ap (after_wait polls _ _) e,
        omega (arith, bound),
        elim why [
          | inl over ↦ inl over
          | inr idle ↦ inr (any_running-IsIdle (polls last).1.procs idle)
        ],
        λ k before.
            waits_before polls (now + m.stop_deadline) (suc (m.stop_deadline / 50 + 1)) 0 last e k
              (omega arith) before,
      )
