-- ===== src/Examples/Limits.antt =====
-- The theorems on src/ratelimit.rs, at a small limiter: two tokens of burst, one a second.
use mesh_supervisor.Prelude.{
  if◌then◌else◌, nat_eq, ◌+◌, ◌-◌, ◌*◌, ◌^◌, ◌≤◌, ◌≡◌, refl, some, [], ◌∷◌, arith,
}
use mesh_supervisor.Map.{lookup}
use mesh_supervisor.Ratelimit.Rate.{admitted-rate, admitted}
use mesh_supervisor.Config.{RateLimiterConfig}
use mesh_supervisor.Ratelimit.{admit, one_token, Bucket, Buckets}
use mesh_supervisor.Ratelimit.Bound.{admits, Sections-IsBounded, Limiter, IsBounded, next}
use mesh_supervisor.Ratelimit.Bound.{here}

abbrev cfg : RateLimiterConfig
cfg = record { burst = 2 * 10 ^ 18; refill = 10 ^ 9; max_buckets = 2; eviction_ttl = 90 * 1000 }

abbrev half_full : Bucket
half_full = record { tokens = one_token; last_used = 100 }

abbrev two_peers : Buckets
two_peers = (7, half_full) ∷ (8, record half_full { last_used = 50 }) ∷ []

abbrev quiet : Limiter
quiet = record { buckets = two_peers; pending = 0 }

abbrev after_two : Limiter
after_two = record {
  buckets = (admit cfg (admit cfg two_peers 9 200).0 7 300).0;
  pending =
      if (admit cfg (admit cfg two_peers 9 200).0 7 300).2
      then (if (admit cfg two_peers 9 200).2 then 1 else 0) + 1
      else if (admit cfg two_peers 9 200).2
      then 1
      else 0;
}

-- A new peer's request and a known one's, one after the other.
Sections-IsBounded_example : IsBounded cfg after_two
Sections-IsBounded_example =
    Sections-IsBounded cfg {s = quiet} (next (next here (admits 9 200)) (admits 7 300))
      (omega arith)

seven_here : lookup 7 two_peers ≡ some half_full
unfolding lookup
seven_here = refl

admitted-rate_example :
    (admitted cfg 7 two_peers ((7, 150) ∷ (9, 160) ∷ (7, 170) ∷ []) * one_token
      ≤ one_token + (170 - 100) * cfg.refill)
    × (admitted cfg 7 two_peers ((7, 150) ∷ (9, 160) ∷ (7, 170) ∷ []) * one_token
        ≤ cfg.burst + (170 - 150) * cfg.refill)
admitted-rate_example =
    admitted-rate cfg 7 two_peers half_full ((7, 150) ∷ (9, 160) ∷ (7, 170) ∷ []) seven_here
      (omega arith, (omega arith, tt))
