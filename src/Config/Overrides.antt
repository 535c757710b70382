-- ===== src/Config/Overrides.antt =====
-- src/config.rs: `with_cli_overrides` of the four configurations. clap's `ArgMatches` is a
-- parameter: the values of the flags that were given, also through the environment. The two f64
-- flags are in units of 10^-9.
use mesh_supervisor.Prelude.{ℕ, ◌*◌, ◌^◌, String, Option, none, some}
use mesh_supervisor.Config.{ClientConfig, SupervisorConfig, RateLimiterConfig, TelemetryConfig}

pub record ArgMatches : Type 0 where
  pub get_one : String → Option ℕ
  pub get_f64 : String → Option ℕ

-- `if let Some(v) = get_one(…) { field = f(v) }`
abbrev pub override : Option ℕ → (ℕ → ℕ) → ℕ → ℕ
override none f old = old
override (some v) f old = f v

abbrev pub secs : ℕ → ℕ
secs n = n * 1000

-- A flag that the subcommand does not define reads as absent: `try_get_one`.
unfoldable pub override_telemetry : ArgMatches → TelemetryConfig → TelemetryConfig
override_telemetry m c = record {
  sample_interval = override (m.get_one "sample-interval-ms") (λ n. n) c.sample_interval;
  max_tick_age = override (m.get_one "max-tick-age-ms") (λ n. n) c.max_tick_age;
}

unfoldable pub override_client : ArgMatches → ClientConfig → ClientConfig
unfolding override_telemetry
override_client m c = record {
  read_timeout = override (m.get_one "read-timeout") secs c.read_timeout;
  max_retries = override (m.get_one "connect-retries") (λ n. n) c.max_retries;
  retry_base_delay = override (m.get_one "retry-base-delay-ms") (λ n. n) c.retry_base_delay;
  retry_max_delay = override (m.get_one "retry-max-delay-ms") (λ n. n) c.retry_max_delay;
  telemetry = override_telemetry m c.telemetry;
}

unfoldable pub override_rate_limiter : ArgMatches → RateLimiterConfig → RateLimiterConfig
override_rate_limiter m c = record {
  burst = override (m.get_f64 "rate-burst") (λ n. n * 10 ^ 9) c.burst;
  refill = override (m.get_f64 "rate-refill") (λ n. n) c.refill;
  max_buckets = override (m.get_one "rate-max-buckets") (λ n. n) c.max_buckets;
  eviction_ttl = override (m.get_one "rate-eviction-ttl-secs") secs c.eviction_ttl;
}

unfoldable pub override_supervisor : ArgMatches → SupervisorConfig → SupervisorConfig
unfolding override_telemetry override_rate_limiter
override_supervisor m c = record {
  request_timeout = override (m.get_one "request-timeout") secs c.request_timeout;
  stop_deadline = override (m.get_one "stop-deadline-secs") secs c.stop_deadline;
  rate_limiter = override_rate_limiter m c.rate_limiter;
  telemetry = override_telemetry m c.telemetry;
}
