-- ===== src/Ratelimit/Bound.antt =====
-- The size of the bucket map of src/ratelimit.rs, with calls of `allow` that run at the same time.
use mesh_supervisor.Prelude.{
  ltb, if◌then◌else◌, Bool-cases, nat_eq, length, ℕ, suc, ◌+◌, ◌-◌, ◌*◌, ◌^◌, ◌≤◌, ◌<◌, ◌≡◌, refl,
  inl, inr, false, arith,
}
use mesh_supervisor.Map.Size.{length-insert, length-retain}
use mesh_supervisor.Proto.{EndpointId}
use mesh_supervisor.Config.{RateLimiterConfig}
use mesh_supervisor.Ratelimit.{Buckets, admit, evict_lru, evict_stale, clean_up, allow}
use mesh_supervisor.Ratelimit.Eviction.{length-evict_lru}

-- The buckets, and how many calls have left the first section with a cleanup due.
pub record Limiter : Type 0 where
  pub buckets : Buckets
  pub pending : ℕ

-- One critical section of some call.
pub data Section (cfg : RateLimiterConfig) (s : Limiter) : Limiter → Type 0 where
  admits :
      (peer : EndpointId) (now : ℕ)
      → Section cfg s (record {
        buckets = (admit cfg s.buckets peer now).0;
        pending = if (admit cfg s.buckets peer now).2 then s.pending + 1 else s.pending;
      })
  cleans :
      (now : ℕ)
      → 0 < s.pending
      → Section cfg s (record { buckets = clean_up cfg s.buckets now; pending = s.pending - 1 })

pub data Sections (cfg : RateLimiterConfig) (s : Limiter) : Limiter → Type 0 where
  here : Sections cfg s s
  next : {t u : Limiter} → Sections cfg s t → Section cfg t u → Sections cfg s u

abbrev pub IsBounded : RateLimiterConfig → Limiter → Type 0
IsBounded cfg s = length s.buckets ≤ cfg.max_buckets + s.pending

module _ (cfg : RateLimiterConfig) where
  length-admit :
      (buckets : Buckets) (peer : EndpointId) (now : ℕ)
      → length (admit cfg buckets peer now).0 ≤ length buckets + 1
  unfolding admit
  length-admit buckets peer now = length-insert peer _ buckets

  admit-over_cap :
      (buckets : Buckets) (peer : EndpointId) (now : ℕ)
      → (admit cfg buckets peer now).2 ≡ ltb cfg.max_buckets (length (admit cfg buckets peer now).0)
  unfolding admit
  admit-over_cap buckets peer now = refl

  length-evict_stale :
      (buckets : Buckets) (now ttl : ℕ) → length (evict_stale buckets now ttl) ≤ length buckets
  unfolding evict_stale
  length-evict_stale buckets now ttl = length-retain _ buckets

  length-clean_up :
      (buckets : Buckets) (now n : ℕ)
      → length buckets ≤ cfg.max_buckets + suc n
      → length (clean_up cfg buckets now) ≤ cfg.max_buckets + n
  unfolding clean_up
  length-clean_up buckets now n h = elim (Bool-cases (ltb cfg.max_buckets (length buckets))) [
    | inl over ↦ rw over (
        omega (
          arith,
          length-evict_stale (evict_lru buckets) now (cfg.eviction_ttl * 10 ^ 6),
          length-evict_lru buckets (ground (arith, over)),
        ))
    | inr fits ↦
        rw fits (
          omega (arith, length-evict_stale buckets now (cfg.eviction_ttl * 10 ^ 6), ltb-false fits))
  ]
    where
      ltb-false : ltb cfg.max_buckets (length buckets) ≡ false → length buckets ≤ cfg.max_buckets
      ltb-false e = ground arith

  Section-IsBounded : {s t : Limiter} → Section cfg s t → IsBounded cfg s → IsBounded cfg t
  Section-IsBounded {s} (admits peer now) h =
      ground (arith, length-admit s.buckets peer now, admit-over_cap s.buckets peer now)
  Section-IsBounded {s} (cleans now due) h =
      length-clean_up s.buckets now (s.pending - 1) (omega arith)

  -- However the critical sections of concurrent calls interleave, if the map holds at the start at
  -- most the configured number of buckets and one more for each cleanup that is due, it still
  -- does; so it is within its limit whenever no cleanup is due.
  pub Sections-IsBounded : {s t : Limiter} → Sections cfg s t → IsBounded cfg s → IsBounded cfg t
  Sections-IsBounded here h = h
  Sections-IsBounded (next r x) h = Section-IsBounded x (Sections-IsBounded r h)

  -- One undisturbed call of `allow` keeps the map within its limit.
  pub length-allow :
      (buckets : Buckets) (peer : EndpointId) (now : ℕ)
      → length buckets ≤ cfg.max_buckets
      → length (allow cfg buckets peer now).0 ≤ cfg.max_buckets
  unfolding allow
  length-allow buckets peer now h = elim (Bool-cases (admit cfg buckets peer now).2) [
    | inl over ↦ rw over (
        omega (
          arith,
          length-clean_up (admit cfg buckets peer now).0 now 0
              (omega (arith, length-admit buckets peer now)),
        ))
    | inr fits ↦ rw fits (ground (arith, admit-over_cap buckets peer now, fits))
  ]
