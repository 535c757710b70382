-- ===== src/Process/Supervise/Capped.antt =====
-- How often the supervise task of src/process.rs relaunches one process between two resets of its
-- count of restarts, over all orders of steps: the retry cap of the loop.
use mesh_supervisor.Prelude.{
  nat_beq, if◌then◌else◌, Bool-cases, nat_eq, ℤ, ℕ, ◌+◌, ◌^◌, ◌≤◌, ◌<◌, ◌≡◌, refl, sym, ap, subst,
  ◌≢◌, inl, inr, Bool, true, false, not, ◌||◌, Option, none, some, arith,
}
use mesh_supervisor.Map.{lookup, insert}
use mesh_supervisor.Map.Laws.{lookup-insert, lookup-insert_ne, lookup-eq_key}
use mesh_supervisor.Proto.{Handle}
use mesh_supervisor.Process.State.{Launched, Manager}
use mesh_supervisor.Process.Launch.{next_id}
use mesh_supervisor.Process.Launch.Spawn.{no_wrap}
use mesh_supervisor.Process.Restart.{
  stable_reset, after_exit, retry_or_cap, cap_hit, next_attempt, should_restart,
}
use mesh_supervisor.Process.Supervise.{
  Task, Phase, watching, reaped, sleeping, launching, finished, new_task, follow, decide, wake,
  relaunch, is_armed,
}
use mesh_supervisor.Process.Supervise.Edits.{next-Edit, Step-Edit}
use mesh_supervisor.Process.Supervise.World.{
  Reach, World, Step, here, next, with_task, spawned, spawn_failed, stopped, forgotten, shut_down,
  reaps, decides, wakes, relaunches,
}
use mesh_supervisor.Store.Database.{Disk}

-- The relaunches of `h` that succeed in a step, and in a run.
abbrev pub relaunch_of : {d : Disk} {w u : World d} → Handle → Step d w u → ℕ
relaunch_of h (spawned spec l room) = 0
relaunch_of h (spawn_failed spec room) = 0
relaunch_of h (stopped id m' pid e) = 0
relaunch_of h (forgotten id m' e) = 0
relaunch_of h shut_down = 0
relaunch_of h (reaps id t code elapsed at phase) = 0
relaunch_of h (decides id t code elapsed at phase) = 0
relaunch_of h (wakes id t delay at phase) = 0
relaunch_of h (relaunches id t none at phase) = 0
relaunch_of h (relaunches id t (some l) at phase) = if nat_beq id h then 1 else 0

abbrev pub relaunches_of : {d : Disk} {w u : World d} → Handle → Reach d w u → ℕ
relaunches_of h here = 0
relaunches_of h (next r s) = relaunches_of h r + relaunch_of h s

-- No child of `h` that the task looks back at stayed up for the stable time.
abbrev pub IsQuickStep : {d : Disk} {w u : World d} → Handle → Step d w u → Type 0
IsQuickStep h (spawned spec l room) = Unit {0}
IsQuickStep h (spawn_failed spec room) = Unit {0}
IsQuickStep h (stopped id m' pid e) = Unit {0}
IsQuickStep h (forgotten id m' e) = Unit {0}
IsQuickStep h shut_down = Unit {0}
IsQuickStep h (reaps id t code elapsed at phase) = Unit {0}
IsQuickStep h (decides id t code elapsed at phase) = nat_beq id h ≡ true → elapsed < stable_reset
IsQuickStep h (wakes id t delay at phase) = Unit {0}
IsQuickStep h (relaunches id t outcome at phase) = Unit {0}

abbrev pub IsQuick : {d : Disk} {w u : World d} → Handle → Reach d w u → Type 0
IsQuick h here = Unit {0}
IsQuick h (next r s) = IsQuick h r × IsQuickStep h s

-- A relaunch that is counted in `attempt` and has not been made.
abbrev pending : Phase → ℕ
pending watching = 0
pending (reaped code elapsed) = 0
pending (sleeping delay) = 1
pending launching = 1
pending finished = 0

-- The task has a cap of `m` and counts `n` relaunches since its count was `a`.
abbrev IsWithin : ℕ → ℕ → ℕ → Option Task → Type 0
IsWithin m a n none = ⊥
IsWithin m a n (some t) =
    (t.spec.max_retries ≡ m) × (n + pending t.phase + a ≤ t.attempt) × (t.attempt ≤ m)

set-IsWithin :
    (same : Bool) (m a n n' : ℕ) (o : Option Task) (t t' : Task)
    → (same ≡ true → o ≡ some t)
    → (same ≡ true → IsWithin m a n (some t) → IsWithin m a n' (some t'))
    → (same ≡ false → n' ≡ n)
    → IsWithin m a n o
    → IsWithin m a n' (if same then some t' else o)
set-IsWithin true m a n n' o t t' is moves keeps v = moves refl (subst (IsWithin m a n) (is refl) v)
set-IsWithin false m a n n' o t t' is moves keeps v =
    subst (λ k. IsWithin m a k o) (sym (keeps refl)) v

count_IsWithin :
    (m a n : ℕ) (t : Task) (elapsed : ℕ)
    → 0 < m
    → m + 1 < 2 ^ 32
    → elapsed < stable_reset
    → n + a ≤ t.attempt
    → IsWithin m a n (some t)
    → IsWithin m a n (some (follow t (retry_or_cap m (next_attempt t.attempt elapsed))))
unfolding retry_or_cap cap_hit next_attempt
count_IsWithin m a n t elapsed some_retries small quick room v =
    let bumped : next_attempt t.attempt elapsed ≡ t.attempt + 1 = ground (arith, v, small) in
    elim (Bool-cases (cap_hit m (next_attempt t.attempt elapsed))) [
      | inl hit ↦ rw hit (v.0, omega (arith, v, room), v.2)
      | inr more ↦
          rw (more, bumped) (v.0, omega (arith, room), ground (arith, more, bumped, some_retries))
    ]

-- A quick exit is followed by a relaunch only while the count is below the cap.
follow-IsWithin :
    (shutdown armed : Bool) (m a n : ℕ) (t : Task) (code : Option ℤ) (elapsed : ℕ)
    → 0 < m
    → m + 1 < 2 ^ 32
    → elapsed < stable_reset
    → t.phase ≡ reaped code elapsed
    → IsWithin m a n (some t)
    → IsWithin m a n (
        some (
          follow t
            (after_exit shutdown armed t.spec.policy t.spec.max_retries t.attempt code elapsed)))
unfolding after_exit retry_or_cap cap_hit next_attempt
follow-IsWithin shutdown armed m a n t code elapsed some_retries small quick phase v =
    let count = ap pending phase in
    elim (Bool-cases (shutdown || not armed || not (should_restart t.spec.policy code))) [
      | inl leaves ↦ rw leaves (v.0, omega (arith, v, count), v.2)
      | inr stays ↦ rw stays (
          subst
            (λ k.
              IsWithin m a n (some (follow t (retry_or_cap k (next_attempt t.attempt elapsed)))))
            (sym v.0)
            (count_IsWithin m a n t elapsed some_retries small quick (omega (arith, v, count)) v))
    ]

module _ (d : Disk) where
  move-IsWithin :
      (w : World d) (h id m a n n' : ℕ) (t t' : Task)
      → lookup id w.tasks ≡ some t
      → (nat_beq id h ≡ true → IsWithin m a n (some t) → IsWithin m a n' (some t'))
      → (nat_beq id h ≡ false → n' ≡ n)
      → IsWithin m a n (lookup h w.tasks)
      → IsWithin m a n' (lookup h (insert id t' w.tasks))
  move-IsWithin w h id m a n n' t t' at moves keeps v = rw (lookup-insert id h t' w.tasks) (
      set-IsWithin (nat_beq id h) m a n n' (lookup h w.tasks) t t'
        (λ same. lookup-eq_key id h (some t) w.tasks at same) moves keeps v)

  same-IsWithin : (m a n : ℕ) (o : Option Task) → IsWithin m a n o → IsWithin m a (n + 0) o
  same-IsWithin m a n o v = subst (λ k. IsWithin m a k o) (omega arith) v

  wake-IsWithin :
      (mgr : Manager d) (id m a n delay : ℕ) (t : Task)
      → t.phase ≡ sleeping delay
      → IsWithin m a n (some t)
      → IsWithin m a (n + 0) (some (wake d mgr id t))
  unfolding wake
  wake-IsWithin mgr id m a n delay t phase v =
      let count = ap pending phase in
      elim (Bool-cases (mgr.shutdown || not (is_armed (lookup id mgr.procs)))) [
        | inl leaves ↦ rw leaves (v.0, omega (arith, v, count), v.2)
        | inr stays ↦ rw stays (v.0, omega (arith, v, count), v.2)
      ]

  relaunch-IsWithin :
      (w : World d) (h id m a n : ℕ) (t : Task) (outcome : Option Launched)
      (at : lookup id w.tasks ≡ some t) (phase : t.phase ≡ launching)
      → IsWithin m a n (lookup h w.tasks)
      → IsWithin m a (n + relaunch_of {w = w} h (relaunches id t outcome at phase)) (
          lookup h
            (with_task w
              (relaunch d w.manager id t outcome).0
              id
              (relaunch d w.manager id t outcome).1).tasks)
  unfolding relaunch
  relaunch-IsWithin w h id m a n t none at phase v =
      let count = ap pending phase in
      move-IsWithin w h id m a n _ t _ at (λ same k. (k.0, omega (arith, k, count), k.2))
        (λ other. omega arith) v
  relaunch-IsWithin w h id m a n t (some l) at phase v =
      let count = ap pending phase in
      move-IsWithin w h id m a n _ t _ at (λ same k. rw same (k.0, omega (arith, k, count), k.2))
        (λ other. rw other (omega arith)) v

  Step-IsWithin :
      {w u : World d}
      → (h m a n : ℕ) (s : Step d w u) → 0 < m
      → m + 1 < 2 ^ 32
      → h ≤ w.manager.next
      → IsQuickStep h s
      → IsWithin m a n (lookup h w.tasks)
      → IsWithin m a (n + relaunch_of h s) (lookup h u.tasks)
  unfolding decide
  Step-IsWithin {w} h m a n (spawned spec l room) some_retries small given quick v =
      let fresh : next_id d w.manager ≢ h =
        λ e. omega (arith, e, given, no_wrap d w.manager room) in
      rw (lookup-insert_ne (next_id d w.manager) h (new_task spec) w.tasks fresh)
        (same-IsWithin m a n (lookup h w.tasks) v)
  Step-IsWithin h m a n (spawn_failed spec room) some_retries small given quick v =
      same-IsWithin m a n _ v
  Step-IsWithin h m a n (stopped id m' pid e) some_retries small given quick v =
      same-IsWithin m a n _ v
  Step-IsWithin h m a n (forgotten id m' e) some_retries small given quick v =
      same-IsWithin m a n _ v
  Step-IsWithin h m a n shut_down some_retries small given quick v = same-IsWithin m a n _ v
  Step-IsWithin {w} h m a n (reaps id t code elapsed at phase) some_retries small given quick v =
      let count = ap pending phase in
      move-IsWithin w h id m a n _ t _ at (λ same k. (k.0, omega (arith, k, count), k.2))
        (λ other. omega arith) v
  Step-IsWithin {w} h m a n (decides id t code elapsed at phase) some_retries small given quick v =
      move-IsWithin w h id m a n _ t _ at
        (λ same k. same-IsWithin m a n (some (decide d w.manager id t code elapsed)) (
          follow-IsWithin w.manager.shutdown (is_armed (lookup id w.manager.procs)) m a n t code
            elapsed some_retries small (quick same) phase k))
        (λ other. omega arith) v
  Step-IsWithin {w} h m a n (wakes id t delay at phase) some_retries small given quick v =
      move-IsWithin w h id m a n _ t _ at
        (λ same k. wake-IsWithin w.manager id m a n delay t phase k) (λ other. omega arith) v
  Step-IsWithin {w} h m a n (relaunches id t outcome at phase) some_retries small given quick v =
      relaunch-IsWithin w h id m a n t outcome at phase v

  Reach-IsWithin :
      {w u : World d}
      → (h m a : ℕ) (r : Reach d w u) → 0 < m
      → m + 1 < 2 ^ 32
      → h ≤ w.manager.next
      → IsQuick h r
      → IsWithin m a 0 (lookup h w.tasks)
      → IsWithin m a (relaunches_of h r) (lookup h u.tasks) × (h ≤ u.manager.next)
  Reach-IsWithin h m a here some_retries small given quick v = (v, given)
  Reach-IsWithin {w} {u} h m a (next {v = x} r s) some_retries small given quick v =
      let (within, below) = Reach-IsWithin h m a r some_retries small given quick.0 v in
      (
        Step-IsWithin h m a (relaunches_of h r) s some_retries small below quick.1 within,
        omega (arith, below, next-Edit d x.manager u.manager (Step-Edit d s)),
      )

  bound : (m a n : ℕ) (o : Option Task) → IsWithin m a n o → n + a ≤ m
  bound m a n none v = absurd v
  bound m a n (some t) v = omega (arith, v)

  -- A process with a retry cap, whose child runs and whose task has counted some restarts in a row,
  -- is relaunched at most as often from then on as the cap leaves, as long as none of its children
  -- stays up for the stable time: in every order of the steps, whatever it exits with, whatever is
  -- stopped, forgotten or spawned between, and whichever relaunches fail. (The cap is not the
  -- largest u32, at which the counter would wrap.)
  pub relaunches_capped :
      {w u : World d}
      → (h : Handle) (t : Task) (r : Reach d w u) → lookup h w.tasks ≡ some t
      → t.phase ≡ watching
      → t.attempt ≤ t.spec.max_retries
      → 0 < t.spec.max_retries
      → t.spec.max_retries + 1 < 2 ^ 32
      → h ≤ w.manager.next
      → IsQuick h r
      → relaunches_of h r + t.attempt ≤ t.spec.max_retries
  relaunches_capped {w} {u} h t r at phase under some_retries small given quick =
      let count = ap pending phase in
      let start : IsWithin t.spec.max_retries t.attempt 0 (lookup h w.tasks) =
        rw at (refl, omega (arith, count), under) in
      bound _ _ _ (lookup h u.tasks)
        (Reach-IsWithin h _ t.attempt r some_retries small given quick start).0
