-- ===== src/Ratelimit.antt =====
-- src/ratelimit.rs: a token bucket for each peer. The f64 token counts are exact multiples of
-- 10^-18 token, the refill rate of 10^-9 token a second, and instants are in nanoseconds, so that
-- the refill of an interval is a plain product. Rounding of f64 is not modelled, nor are a burst or
-- a rate that is negative, infinite or not a number.
pub mod Bound
pub mod Rate
pub mod Eviction
pub mod Burst
use mesh_supervisor.Prelude.{
  ltb, leb, if◌then◌else◌, nat_eq, length, ℕ, ◌+◌, ◌-◌, ◌*◌, ◌^◌, min, Bool, true, false, Option,
  none, some, [], ◌∷◌,
}
use mesh_supervisor.Map.{Map, lookup, insert, remove, retain}
use mesh_supervisor.Proto.{EndpointId}
use mesh_supervisor.Config.{RateLimiterConfig}

abbrev pub one_token : ℕ
one_token = 10 ^ 18

pub record Bucket : Type 0 where
  pub tokens : ℕ
  pub last_used : ℕ

abbrev pub Buckets : Type 0
Buckets = Map EndpointId Bucket

abbrev pub or_insert_with : Option Bucket → Bucket → Bucket
or_insert_with none b = b
or_insert_with (some old) b = old

-- The bucket at `now`, before a token is taken. `duration_since` stops at zero.
unfoldable pub refilled : RateLimiterConfig → ℕ → Bucket → Bucket
refilled cfg now b = record {
  tokens = min (b.tokens + (now - b.last_used) * cfg.refill) cfg.burst;
  last_used = now;
}

unfoldable pub take_token : Bucket → Bucket × Bool
take_token b =
    if leb one_token b.tokens
    then (record b { tokens = b.tokens - one_token }, true)
    else (b, false)

unfoldable pub full_bucket : RateLimiterConfig → ℕ → Bucket
full_bucket cfg now = record { tokens = cfg.burst; last_used = now }

-- The first critical section of `allow`: the buckets, whether the request is admitted, and whether
-- a cleanup is due.
unfoldable pub admit : RateLimiterConfig → Buckets → EndpointId → ℕ → Buckets × Bool × Bool
unfolding full_bucket refilled take_token
admit cfg buckets peer now =
    let (b, allowed) =
      take_token (refilled cfg now (or_insert_with (lookup peer buckets) (full_bucket cfg now))) in
    let buckets' : Buckets = insert peer b buckets in
    (buckets', allowed, ltb cfg.max_buckets (length buckets'))

-- `min_by_key`: the first of the entries that were used the longest time ago.
unfoldable pub older : EndpointId × Bucket → Option (EndpointId × Bucket) → EndpointId × Bucket
older x none = x
older (p, b) (some (q, c)) = if leb b.last_used c.last_used then (p, b) else (q, c)

unfoldable pub oldest : Buckets → Option (EndpointId × Bucket)
unfolding older
oldest [] = none
oldest (x ∷ rest) = some (older x (oldest rest))

unfoldable pub remove_entry : Option (EndpointId × Bucket) → Buckets → Buckets
remove_entry none buckets = buckets
remove_entry (some (id, b)) buckets = remove id buckets

unfoldable pub evict_lru : Buckets → Buckets
unfolding remove_entry
evict_lru buckets = remove_entry (oldest buckets) buckets

-- `now - eviction_ttl` may lie before the first instant; then every bucket is kept.
unfoldable pub evict_stale : Buckets → ℕ → ℕ → Buckets
evict_stale buckets now ttl = retain (λ p b. leb (now - ttl) b.last_used) buckets

-- The second critical section of `allow`.
unfoldable pub clean_up : RateLimiterConfig → Buckets → ℕ → Buckets
unfolding evict_lru evict_stale
clean_up cfg buckets now =
    evict_stale (if ltb cfg.max_buckets (length buckets) then evict_lru buckets else buckets) now
      (cfg.eviction_ttl * 10 ^ 6)

-- `allow`, with no other call between its two sections.
unfoldable pub allow : RateLimiterConfig → Buckets → EndpointId → ℕ → Buckets × Bool
allow cfg buckets peer now =
    let (buckets', allowed, over_cap) = admit cfg buckets peer now in
    (if over_cap then clean_up cfg buckets' now else buckets', allowed)
