-- ===== src/Telemetry/Rates.antt =====
-- The CPU rates that `watch_loop` of src/telemetry.rs prints.
use mesh_supervisor.Prelude.{
  nat_eq, pair_eq, All, ℕ, ◌-◌, ◌*◌, ◌/◌, ◌<◌, ◌≡◌, refl, sym, ap, subst, ◌∙◌, ◌≢◌, ◌⊎◌, inl, inr,
  Option, none, some, List, [], ◌∷◌, arith,
}
use mathlib.Core.Option
use mesh_supervisor.Map.{lookup, insert}
use mesh_supervisor.Map.Laws.{lookup-insert_self, lookup-insert_ne}
use mesh_supervisor.Proto.{EndpointId, Handle, ProcInfo, Usage}
use mesh_supervisor.Telemetry.{Tick, Samples, Shown, rate, show_stat, show_stats}

abbrev pub IsIn : {A : Type 0} → A → List A → Type 0
IsIn x [] = ⊥
IsIn x (y ∷ ys) = (x ≡ y) ⊎ IsIn x ys

-- No process stands in the statistics twice.
abbrev pub IsDistinct : List ProcInfo → Type 0
IsDistinct [] = Unit {0}
IsDistinct (i ∷ stats) = All (λ j. i.handle ≢ j.handle) stats × IsDistinct stats

-- A line of this tick is not a measurement of the process `h` of `p`.
abbrev pub IsOther : EndpointId → Handle → Tick → ProcInfo → Type 0
IsOther p h tick j = (tick.from ≢ p) ⊎ (j.handle ≢ h) ⊎ (j.usage ≡ none)

module _ (tick : Tick) where
  -- The samples after these lines.
  abbrev pub samples_after : List ProcInfo → Samples → Samples
  samples_after stats prev = (show_stats tick stats prev).1

  insert-other :
      (p : EndpointId) (h : Handle) (k : Handle) (v : ℕ × ℕ) (prev : Samples)
      → (tick.from ≢ p) ⊎ (k ≢ h)
      → lookup (p, h) (insert (tick.from, k) v prev) ≡ lookup (p, h) prev
  insert-other p h k v prev (inl other) =
      lookup-insert_ne (tick.from, k) (p, h) v prev (λ e. other (ap (λ x. x.0) e))
  insert-other p h k v prev (inr other) =
      lookup-insert_ne (tick.from, k) (p, h) v prev (λ e. other (ap (λ x. x.1) e))

  show_stat-other :
      (p : EndpointId) (h : Handle) (j : ProcInfo) (u : Option Usage) (prev : Samples)
      → (tick.from ≢ p) ⊎ (j.handle ≢ h) ⊎ (u ≡ none)
      → lookup (p, h) (show_stat tick j u prev).1 ≡ lookup (p, h) prev
  unfolding show_stat
  show_stat-other p h j none prev other = refl
  show_stat-other p h j (some u) prev (inl other) = insert-other p h j.handle _ prev (inl other)
  show_stat-other p h j (some u) prev (inr (inl other)) =
      insert-other p h j.handle _ prev (inr other)
  show_stat-other p h j (some u) prev (inr (inr unmeasured)) = cc

  -- Samples of a process that no line measures stay.
  pub show_stats-other :
      (p : EndpointId) (h : Handle) (stats : List ProcInfo) (prev : Samples)
      → All (IsOther p h tick) stats
      → lookup (p, h) (samples_after stats prev) ≡ lookup (p, h) prev
  unfolding show_stats
  show_stats-other p h [] prev all = refl
  show_stats-other p h (j ∷ stats) prev (other, all) =
      show_stats-other p h stats (show_stat tick j j.usage prev).1 all
      ∙ show_stat-other p h j j.usage prev other

  apart :
      (i : ProcInfo) (stats : List ProcInfo)
      → All (λ j. i.handle ≢ j.handle) stats
      → All (IsOther tick.from i.handle tick) stats
  apart i [] all = tt
  apart i (j ∷ stats) (ne, all) = (inr (inl (λ e. ne (sym e))), apart i stats all)

  measured :
      (i : ProcInfo) (o : Option Usage) (u : Usage) (prev : Samples)
      → o ≡ some u
      → lookup (tick.from, i.handle) (show_stat tick i o prev).1 ≡ some (u.cpu_usec, tick.ts)
  unfolding show_stat
  measured i none u prev e = cc
  measured i (some v) u prev e =
      lookup-insert_self (tick.from, i.handle) (v.cpu_usec, tick.ts) prev
      ∙ ap (λ (o : Option Usage). Option.map (λ (x : Usage). (x.cpu_usec, tick.ts)) o) e

  -- The sample of a process that a tick measures is the tick's own.
  pub show_stats-measured :
      (i : ProcInfo) (u : Usage) (stats : List ProcInfo) (prev : Samples)
      → IsDistinct stats
      → IsIn i stats
      → i.usage ≡ some u
      → lookup (tick.from, i.handle) (samples_after stats prev) ≡ some (u.cpu_usec, tick.ts)
  unfolding show_stats
  show_stats-measured i u [] prev d within e = elim within [ ]
  show_stats-measured i u (j ∷ stats) prev (ne, more) (inl same) e =
      show_stats-other tick.from i.handle stats (show_stat tick j j.usage prev).1
        (subst (λ k. All (IsOther tick.from k.handle tick) stats) (sym same) (apart j stats ne))
      ∙ subst
          (λ k.
            lookup (tick.from, k.handle) (show_stat tick j j.usage prev).1
            ≡ some (u.cpu_usec, tick.ts))
          (sym same) (measured j j.usage u prev (subst (λ (k : ProcInfo). k.usage ≡ some u) same e))
  show_stats-measured i u (j ∷ stats) prev (ne, more) (inr later) e =
      show_stats-measured i u stats (show_stat tick j j.usage prev).1 more later e

  -- The line of a process against the samples before its tick.
  abbrev pub line_of : ProcInfo → Samples → Shown
  line_of i prev = (show_stat tick i i.usage prev).0

  line_same :
      (i : ProcInfo) (u : Option Usage) (prev prev' : Samples)
      → lookup (tick.from, i.handle) prev' ≡ lookup (tick.from, i.handle) prev
      → (show_stat tick i u prev').0 ≡ (show_stat tick i u prev).0
  unfolding show_stat
  line_same i none prev prev' e = refl
  line_same i (some u) prev prev' e = rw e refl

  -- A line of a tick shows its process against the samples before the tick, wherever it stands.
  pub show_stats-line :
      (i : ProcInfo) (stats : List ProcInfo) (prev prev' : Samples)
      → IsDistinct stats
      → IsIn i stats
      → lookup (tick.from, i.handle) prev' ≡ lookup (tick.from, i.handle) prev
      → IsIn (line_of i prev) (show_stats tick stats prev').0
  unfolding show_stats
  show_stats-line i [] prev prev' d within e = elim within [ ]
  show_stats-line i (j ∷ stats) prev prev' (ne, more) (inl same) e =
      inl (
        subst (λ k. line_of i prev ≡ line_of k prev') same (sym (line_same i i.usage prev prev' e)))
  show_stats-line i (j ∷ stats) prev prev' (ne, more) (inr later) e = inr (
      show_stats-line i stats prev (show_stat tick j j.usage prev').1 more later (
        show_stat-other tick.from i.handle j j.usage prev' (inr (inl (apart_of stats ne later)))
        ∙ e))
    where
      apart_of :
          (rest : List ProcInfo)
          → All (λ k. j.handle ≢ k.handle) rest
          → IsIn i rest
          → j.handle ≢ i.handle
      apart_of [] all within = elim within [ ]
      apart_of (k ∷ rest) (ne', all) (inl same) =
          λ e'. ne' (e' ∙ ap (λ (x : ProcInfo). x.handle) same)
      apart_of (k ∷ rest) (ne', all) (inr further) = apart_of rest all further

-- The samples after a sequence of accepted ticks.
abbrev pub samples_through : List Tick → Samples → Samples
samples_through [] prev = prev
samples_through (t ∷ ticks) prev = samples_through ticks (samples_after t t.stats prev)

samples_through-other :
    (p : EndpointId) (h : Handle) (ticks : List Tick) (prev : Samples)
    → All (λ m. All (IsOther p h m) m.stats) ticks
    → lookup (p, h) (samples_through ticks prev) ≡ lookup (p, h) prev
samples_through-other p h [] prev all = refl
samples_through-other p h (m ∷ ticks) prev (other, all) =
    samples_through-other p h ticks (samples_after m m.stats prev) all
    ∙ show_stats-other m p h m.stats prev other

-- The line of a process that was measured at these counters.
abbrev pub rate_line : Tick → ProcInfo → Usage → ℕ × ℕ → Shown
rate_line u j b cpu = record {
  from = u.from;
  info = j;
  mem_mib = some (b.mem_bytes / (1024 * 1024));
  cpu = some cpu;
}

line_of-rate :
    (u : Tick) (j : ProcInfo) (o : Option Usage) (b : Usage) (prev : Samples) (pc pt : ℕ)
    → o ≡ some b
    → lookup (u.from, j.handle) prev ≡ some (pc, pt)
    → pt < u.ts
    → (show_stat u j o prev).0 ≡ rate_line u j b (b.cpu_usec - pc, (u.ts - pt) * 10)
unfolding show_stat rate
line_of-rate u j none b prev pc pt e at lt = cc
line_of-rate u j (some v) b prev pc pt e at lt = rw at (ground (arith, e, lt))

-- Between two ticks `t` and `u` of one publisher that both measure a process, the second one later,
-- any ticks may come that do not measure it, from this or other publishers. The line that `u` prints
-- for the process then shows the counter's growth since `t` over the time between the two, whatever
-- was seen before `t` and whatever else the two ticks report. No process stands in one of them twice.
pub rate_between :
    (t u : Tick) (i j : ProcInfo) (a b : Usage) (between : List Tick) (prev : Samples)
    → IsDistinct t.stats
    → IsDistinct u.stats
    → IsIn i t.stats
    → IsIn j u.stats
    → i.usage ≡ some a
    → j.usage ≡ some b
    → u.from ≡ t.from
    → j.handle ≡ i.handle
    → t.ts < u.ts
    → All (λ m. All (IsOther t.from i.handle m) m.stats) between
    → IsIn
        (rate_line u j b (b.cpu_usec - a.cpu_usec, (u.ts - t.ts) * 10))
        (show_stats u u.stats (samples_through (t ∷ between) prev)).0
rate_between t u i j a b between prev dt du at_t at_u ea eb from handle lt others =
    let now : Samples = samples_through (t ∷ between) prev in
    let sample : lookup (t.from, i.handle) now ≡ some (a.cpu_usec, t.ts) =
      samples_through-other t.from i.handle between (samples_after t t.stats prev) others
      ∙ show_stats-measured t i a t.stats prev dt at_t ea in
    let its_sample : lookup (u.from, j.handle) now ≡ some (a.cpu_usec, t.ts) =
      subst (λ (k : EndpointId × Handle). lookup k now ≡ some (a.cpu_usec, t.ts))
        (sym (ap (λ p. (p, j.handle)) from ∙ ap (λ h. (t.from, h)) handle)) sample in
    subst (λ line. IsIn line (show_stats u u.stats now).0)
      (line_of-rate u j j.usage b now a.cpu_usec t.ts eb its_sample lt)
      (show_stats-line u j u.stats now now du at_u refl)
