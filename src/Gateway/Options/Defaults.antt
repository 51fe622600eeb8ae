-- ===== src/Gateway/Options/Defaults.antt =====
-- What the defaults of gateway/gateway.go guarantee.
use dealer.Base.{◌≡◌, true, arith, ℤ, pos, ltb_ℤ}
use dealer.Gateway.Options.{Options, ResolvedOptions, resolve_options, resolve_poll_interval}

abbrev pub IsPositive : ℤ → Type 0
IsPositive x = ltb_ℤ (pos 0) x ≡ true

-- What the proxies, the probers and the limits rely on.
pub record IsSane (o : ResolvedOptions) : Type 0 where
  pub origin_timeout : IsPositive o.origin_timeout
  pub max_body_bytes : IsPositive o.max_body_bytes
  pub unhealthy_cooldown : IsPositive o.unhealthy_cooldown
  pub health_check_interval : IsPositive o.health_check_interval
  pub health_check_timeout : IsPositive o.health_check_timeout
  pub retry_max_attempts : IsPositive o.retry_max_attempts
  pub retry_backoff_base : IsPositive o.retry_backoff_base
  pub breaker_cooldown : IsPositive o.breaker_cooldown

-- Whatever the options, negative ones too, each duration and limit that is used is positive, and
-- one that is positive is used as it was given.
pub resolve_options-IsSane :
    (o : Options)
    → IsSane (resolve_options o)
      × IsPositive (resolve_poll_interval o)
      × (IsPositive o.max_request_body_bytes
          → (resolve_options o).max_body_bytes ≡ o.max_request_body_bytes)
      × (IsPositive o.breaker_cooldown → (resolve_options o).breaker_cooldown ≡ o.breaker_cooldown)
unfolding resolve_options resolve_poll_interval
resolve_options-IsSane o = (
  record {
    origin_timeout = ground arith;
    max_body_bytes = ground arith;
    unhealthy_cooldown = ground arith;
    health_check_interval = ground arith;
    health_check_timeout = ground arith;
    retry_max_attempts = ground arith;
    retry_backoff_base = ground arith;
    breaker_cooldown = ground arith;
  },
  ground arith,
  ground arith,
  ground arith,
)
