-- ===== src/Config.antt =====
-- src/config.rs: policy knobs with their defaults, and the command-line flags that override them.
-- Durations are in milliseconds; the limiter's f64 knobs are in its units (see Ratelimit).
pub mod Overrides
use mesh_supervisor.Prelude.{ℕ, ◌*◌, ◌^◌}

pub record TelemetryConfig : Type 0 where
  pub sample_interval : ℕ
  pub max_tick_age : ℕ

pub record ClientConfig : Type 0 where
  pub read_timeout : ℕ
  pub max_retries : ℕ
  pub retry_base_delay : ℕ
  pub retry_max_delay : ℕ
  pub telemetry : TelemetryConfig

pub record RateLimiterConfig : Type 0 where
  pub burst : ℕ
  pub refill : ℕ
  pub max_buckets : ℕ
  pub eviction_ttl : ℕ

pub record SupervisorConfig : Type 0 where
  pub request_timeout : ℕ
  pub stop_deadline : ℕ
  pub rate_limiter : RateLimiterConfig
  pub telemetry : TelemetryConfig

abbrev pub default_telemetry : TelemetryConfig
default_telemetry = record { sample_interval = 1000; max_tick_age = 10000 }

abbrev pub default_client : ClientConfig
default_client = record {
  read_timeout = 30 * 1000;
  max_retries = 5;
  retry_base_delay = 100;
  retry_max_delay = 2 * 1000;
  telemetry = default_telemetry;
}

abbrev pub default_rate_limiter : RateLimiterConfig
default_rate_limiter = record {
  burst = 20 * 10 ^ 18;
  refill = 10 * 10 ^ 9;
  max_buckets = 2048;
  eviction_ttl = 90 * 1000;
}

abbrev pub default_supervisor : SupervisorConfig
default_supervisor = record {
  request_timeout = 30 * 1000;
  stop_deadline = 5 * 1000;
  rate_limiter = default_rate_limiter;
  telemetry = default_telemetry;
}
