-- ===== src/Gateway/Options.antt =====
-- gateway/gateway.go: Options, their defaults, and the resolved options that New computes. The
-- durations are nanoseconds.
pub mod Defaults
use dealer.Base.{Bool, String, is_empty, if◌then◌else◌, ℤ, pos, leb_ℤ}

pub record Options : Type 0 where
  pub poll_interval : ℤ
  pub origin_timeout : ℤ
  pub max_request_body_bytes : ℤ
  pub unhealthy_cooldown : ℤ
  pub health_check_path : String
  pub health_check_interval : ℤ
  pub health_check_timeout : ℤ
  pub retry_max_attempts : ℤ
  pub retry_backoff_base : ℤ
  pub breaker_threshold : ℤ
  pub breaker_cooldown : ℤ
  pub trust_request_id : Bool
  pub trusted_proxies : String
  pub otlp_endpoint : String
  pub service_name : String

pub record ResolvedOptions : Type 0 where
  pub origin_timeout : ℤ
  pub max_body_bytes : ℤ
  pub unhealthy_cooldown : ℤ
  pub health_check_path : String
  pub health_check_interval : ℤ
  pub health_check_timeout : ℤ
  pub retry_max_attempts : ℤ
  pub retry_backoff_base : ℤ
  pub breaker_threshold : ℤ
  pub breaker_cooldown : ℤ

abbrev pub default_poll_interval : ℤ
default_poll_interval = pos 2_000_000_000

abbrev pub default_origin_timeout : ℤ
default_origin_timeout = pos 10_000_000_000

abbrev pub default_max_request_body_bytes : ℤ
default_max_request_body_bytes = pos 10_485_760

abbrev pub default_unhealthy_cooldown : ℤ
default_unhealthy_cooldown = pos 10_000_000_000

abbrev pub default_health_check_interval : ℤ
default_health_check_interval = pos 10_000_000_000

abbrev pub default_health_check_timeout : ℤ
default_health_check_timeout = pos 2_000_000_000

abbrev pub default_retry_max_attempts : ℤ
default_retry_max_attempts = pos 1

abbrev pub default_retry_backoff_base : ℤ
default_retry_backoff_base = pos 100_000_000

abbrev pub default_breaker_cooldown : ℤ
default_breaker_cooldown = pos 30_000_000_000

-- `if x <= 0 { x = fallback }`
abbrev pub or_default : ℤ → ℤ → ℤ
or_default x fallback = if leb_ℤ x (pos 0) then fallback else x

unfoldable pub resolve_options : Options → ResolvedOptions
resolve_options o = record {
  origin_timeout = or_default o.origin_timeout default_origin_timeout;
  max_body_bytes = or_default o.max_request_body_bytes default_max_request_body_bytes;
  unhealthy_cooldown = or_default o.unhealthy_cooldown default_unhealthy_cooldown;
  health_check_path = o.health_check_path;
  health_check_interval = or_default o.health_check_interval default_health_check_interval;
  health_check_timeout = or_default o.health_check_timeout default_health_check_timeout;
  retry_max_attempts = or_default o.retry_max_attempts default_retry_max_attempts;
  retry_backoff_base = or_default o.retry_backoff_base default_retry_backoff_base;
  breaker_threshold = o.breaker_threshold;
  breaker_cooldown = or_default o.breaker_cooldown default_breaker_cooldown;
}

-- The interval of the config watcher.
unfoldable pub resolve_poll_interval : Options → ℤ
resolve_poll_interval o = or_default o.poll_interval default_poll_interval

unfoldable pub resolve_service_name : Options → String
resolve_service_name o = if is_empty o.service_name then "dealer" else o.service_name
