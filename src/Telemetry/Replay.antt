-- ===== src/Telemetry/Replay.antt =====
-- The checks of `accept_tick` in src/telemetry.rs, over any sequence of ticks.
use mesh_supervisor.Prelude.{
  nat_beq, if◌then◌else◌, nat_beq_iff, Bool-cases, nat_eq, ℕ, ◌+◌, ◌%◌, ◌^◌, ◌≤◌, ◌<◌, ◌≡◌, refl,
  sym, subst, ◌∙◌, ◌↔◌, inl, inr, Bool, true, false, not, ◌&&◌, Option, none, some, List, [], ◌∷◌,
  arith,
}
use mesh_supervisor.Map.{lookup, insert}
use mesh_supervisor.Map.Laws.{lookup-insert, lookup-insert_self}
use mesh_supervisor.Proto.{EndpointId}
use mesh_supervisor.Telemetry.{Tick, LatestSeq, fresh, is_old, accept_tick}

-- Ticks with the times at which they arrive.
abbrev pub Arrivals : Type 0
Arrivals = List (ℕ × Tick)

-- The ticks that a watcher accepts, in order, and its numbers after them.
unfoldable pub accept_all : ℕ → LatestSeq → Arrivals → List Tick × LatestSeq
accept_all age latest [] = ([], latest)
accept_all age latest ((now, tick) ∷ later) =
    let (accepted, latest') = accept_tick tick now latest age in
    let (ticks, latest'') = accept_all age latest' later in
    (if accepted then tick ∷ ticks else ticks, latest'')

-- A tick is above a number, if there is one.
abbrev pub Above : Option ℕ → ℕ → Type 0
Above none seq = Unit {0}
Above (some prev) seq = prev < seq

-- The ticks of one publisher have rising numbers, from above `o` on.
abbrev pub Increasing : EndpointId → Option ℕ → List Tick → Type 0
Increasing p o [] = Unit {0}
Increasing p o (t ∷ ts) =
    if nat_beq t.from p then Above o t.seq × Increasing p (some t.seq) ts else Increasing p o ts

is_old-Above : (o : Option ℕ) (seq : ℕ) → (is_old o seq ≡ false) ↔ Above o seq
unfolding is_old
is_old-Above none seq = ((λ e. tt), (λ a. refl))
is_old-Above (some prev) seq = ((λ e. ground arith), (λ a. ground arith))

fresh_iff :
    (ts now age : ℕ)
    → age < 2 ^ 64
    → (fresh ts now age ≡ true) ↔ ((ts ≤ now + age) × (now ≤ ts + age))
unfolding fresh
fresh_iff ts now age h =
    let whole : age % 2 ^ 64 ≡ age = omega arith in
    ((λ e. ground (arith, whole)), (λ w. ground (arith, whole)))

accept_tick-tests :
    (t : Tick) (now age : ℕ) (latest : LatestSeq)
    → (accept_tick t now latest age).0
      ≡ (fresh t.ts now age && not (is_old (lookup t.from latest) t.seq))
unfolding accept_tick
accept_tick-tests t now age latest = ground arith

both : (a b : Bool) → ((a && not b) ≡ true) ↔ ((a ≡ true) × (b ≡ false))
both a b = ground arith

-- With a window that a u64 holds, a tick is accepted exactly if its time is within the window on
-- either side of the clock and its number is above the last one accepted from its publisher, if
-- there is one.
pub accept_tick_iff :
    (t : Tick) (now age : ℕ) (latest : LatestSeq)
    → age < 2 ^ 64
    → ((accept_tick t now latest age).0 ≡ true)
      ↔ (((t.ts ≤ now + age) × (now ≤ t.ts + age)) × Above (lookup t.from latest) t.seq)
accept_tick_iff t now age latest h =
    let split = both (fresh t.ts now age) (is_old (lookup t.from latest) t.seq) in
    let window = fresh_iff t.ts now age h in
    let above = is_old-Above (lookup t.from latest) t.seq in
    rw (accept_tick-tests t now age latest) (
      (λ e. let (f, o) = split.0 e in (window.0 f, above.0 o)),
      (λ w. split.1 (window.1 w.0, above.1 w.1)),
    )

pub accepted-latest :
    (t : Tick) (now age : ℕ) (latest : LatestSeq)
    → (accept_tick t now latest age).0 ≡ true
    → (accept_tick t now latest age).1 ≡ insert t.from t.seq latest
unfolding accept_tick
accepted-latest t now age latest h = ground arith

pub refused-latest :
    (t : Tick) (now age : ℕ) (latest : LatestSeq)
    → (accept_tick t now latest age).0 ≡ false
    → (accept_tick t now latest age).1 ≡ latest
unfolding accept_tick
refused-latest t now age latest h = ground arith

accepted-Above :
    (t : Tick) (now age : ℕ) (latest : LatestSeq)
    → (accept_tick t now latest age).0 ≡ true
    → Above (lookup t.from latest) t.seq
accepted-Above t now age latest h =
    let tests = sym (accept_tick-tests t now age latest) ∙ h in
    (is_old-Above (lookup t.from latest) t.seq).0
      ((both (fresh t.ts now age) (is_old (lookup t.from latest) t.seq)).0 tests).1

Increasing-accepted :
    (p : EndpointId) (t : Tick) (latest : LatestSeq) (ticks : List Tick)
    → Above (lookup t.from latest) t.seq
    → Increasing p (lookup p (insert t.from t.seq latest)) ticks
    → Increasing p (lookup p latest) (t ∷ ticks)
Increasing-accepted p t latest ticks above rest = elim (Bool-cases (nat_beq t.from p)) [
  | inl same ↦ rw same (
    subst (λ k. Above (lookup k latest) t.seq) ((nat_beq_iff t.from p).0 same) above,
    rw (lookup-insert t.from p t.seq latest, same) at rest,
  )
  | inr other ↦ rw other (rw (lookup-insert t.from p t.seq latest, other) at rest)
]

-- What a watcher refuses because of its number.
pub not_above :
    (u : Tick) (now age : ℕ) (latest : LatestSeq) (m : ℕ)
    → lookup u.from latest ≡ some m
    → u.seq ≤ m
    → (accept_tick u now latest age).0 ≡ false
unfolding accept_tick
not_above u now age latest m at le = ground (arith, at)

-- Whatever arrives, in whatever order, replayed or not: the ticks that a watcher accepts from one
-- publisher have strictly rising sequence numbers, above the last one that it had accepted before.
pub accept_all-Increasing :
    (p : EndpointId) (age : ℕ) (latest : LatestSeq) (arrivals : Arrivals)
    → Increasing p (lookup p latest) (accept_all age latest arrivals).0
unfolding accept_all
accept_all-Increasing p age latest [] = tt
accept_all-Increasing p age latest ((now, t) ∷ later) =
    elim (Bool-cases (accept_tick t now latest age).0) [
      | inl taken ↦
          rw (taken, accepted-latest t now age latest taken)
            (Increasing-accepted p t latest _ (accepted-Above t now age latest taken)
              (accept_all-Increasing p age (insert t.from t.seq latest) later))
      | inr refused ↦
          rw (refused, refused-latest t now age latest refused)
            (accept_all-Increasing p age latest later)
    ]

insert-grows :
    (p : EndpointId) (n : ℕ) (t : Tick) (latest : LatestSeq)
    → lookup p latest ≡ some n
    → Above (lookup t.from latest) t.seq
    → (m : ℕ) × (n ≤ m) × (lookup p (insert t.from t.seq latest) ≡ some m)
insert-grows p n t latest at above = elim (Bool-cases (nat_beq t.from p)) [
  | inl same ↦
      let from_p =
        subst (λ k. Above (lookup k latest) t.seq) ((nat_beq_iff t.from p).0 same) above in
      let higher : n < t.seq = subst (λ o. Above o t.seq) at from_p in
      (t.seq, omega arith, rw (lookup-insert t.from p t.seq latest, same))
  | inr other ↦ (n, omega arith, rw (lookup-insert t.from p t.seq latest, other) at)
]

step-grows :
    (p : EndpointId) (age now n : ℕ) (t : Tick) (latest : LatestSeq)
    → lookup p latest ≡ some n
    → (m : ℕ) × (n ≤ m) × (lookup p (accept_tick t now latest age).1 ≡ some m)
step-grows p age now n t latest at = elim (Bool-cases (accept_tick t now latest age).0) [
  | inl taken ↦
      rw (accepted-latest t now age latest taken)
        (insert-grows p n t latest at (accepted-Above t now age latest taken))
  | inr refused ↦ rw (refused-latest t now age latest refused) (n, omega arith, at)
]

-- The number that a watcher holds for a publisher only grows.
latest-grows :
    (p : EndpointId) (age n : ℕ) (latest : LatestSeq) (arrivals : Arrivals)
    → lookup p latest ≡ some n
    → (m : ℕ) × (n ≤ m) × (lookup p (accept_all age latest arrivals).1 ≡ some m)
unfolding accept_all
latest-grows p age n latest [] at = (n, omega arith, at)
latest-grows p age n latest ((now, t) ∷ later) at =
    let (k, le, at_k) = step-grows p age now n t latest at in
    let (m, le', at_m) = latest-grows p age k (accept_tick t now latest age).1 later at_k in
    (m, omega arith, at_m)

-- A tick that was accepted once is never accepted again, whatever arrives in between and whenever
-- it comes back; nor is any other tick of its publisher with its number or a lower one.
pub replay_refused :
    (t u : Tick) (now now' age : ℕ) (latest : LatestSeq) (between : Arrivals)
    → (accept_tick t now latest age).0 ≡ true
    → u.from ≡ t.from
    → u.seq ≤ t.seq
    → (accept_tick u now' (accept_all age (accept_tick t now latest age).1 between).1 age).0 ≡ false
replay_refused t u now now' age latest between taken same le =
    let held : lookup t.from (accept_tick t now latest age).1 ≡ some t.seq =
      rw (accepted-latest t now age latest taken) (lookup-insert_self t.from t.seq latest) in
    let last_seen : LatestSeq = (accept_all age (accept_tick t now latest age).1 between).1 in
    let (m, above, at) = latest-grows t.from age t.seq _ between held in
    not_above u now' age last_seen m (subst (λ k. lookup k last_seen ≡ some m) (sym same) at)
      (omega arith)
