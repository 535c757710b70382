-- ===== src/Ratelimit/Burst.antt =====
-- The first request of a peer, under the flags of src/config.rs: `allow` of src/ratelimit.rs.
use mesh_supervisor.Prelude.{leb, nat_eq, ℕ, ◌*◌, ◌^◌, ◌≡◌, refl, none, some, arith}
use mesh_supervisor.Map.{lookup}
use mesh_supervisor.Proto.{EndpointId}
use mesh_supervisor.Config.{RateLimiterConfig}
use mesh_supervisor.Config.Overrides.{ArgMatches, override_rate_limiter}
use mesh_supervisor.Ratelimit.{Buckets, one_token, full_bucket, refilled, admit, take_token, allow}

refilled_full :
    (cfg : RateLimiterConfig) (now : ℕ)
    → (take_token (refilled cfg now (full_bucket cfg now))).1 ≡ leb one_token cfg.burst
unfolding take_token refilled full_bucket
refilled_full cfg now = ground arith

admit_new_peer :
    (cfg : RateLimiterConfig) (buckets : Buckets) (peer : EndpointId) (now : ℕ)
    → lookup peer buckets ≡ none
    → (admit cfg buckets peer now).1 ≡ leb one_token cfg.burst
unfolding admit
admit_new_peer cfg buckets peer now new = rw new (refilled_full cfg now)

burst_of :
    (m : ArgMatches) (cfg : RateLimiterConfig) (b : ℕ)
    → m.get_f64 "rate-burst" ≡ some b
    → (override_rate_limiter m cfg).burst ≡ b * 10 ^ 9
unfolding override_rate_limiter
burst_of m cfg b given = rw given refl

-- A peer without a bucket is admitted exactly if the burst is at least one token, so a supervisor
-- started with `--rate-burst` below 1 refuses every new peer, and one with 1 or more none.
pub allow_new_peer :
    (m : ArgMatches) (cfg : RateLimiterConfig) (buckets : Buckets) (peer : EndpointId) (now b : ℕ)
    → m.get_f64 "rate-burst" ≡ some b
    → lookup peer buckets ≡ none
    → (allow (override_rate_limiter m cfg) buckets peer now).1 ≡ leb (10 ^ 9) b
unfolding allow
allow_new_peer m cfg buckets peer now b given new =
    rw (admit_new_peer (override_rate_limiter m cfg) buckets peer now new, burst_of m cfg b given)
      (ground arith)
