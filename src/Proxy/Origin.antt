-- ===== src/Proxy/Origin.antt =====
-- gateway/internal/proxy/origin.go: one origin's health. A method under the mutex returns the new
-- state. A time is a number of nanoseconds since the zero time; a Duration and an int are integers
-- of 64 bits, with Go's wrap-around.
pub mod Breaker
pub mod History
use dealer.Base.{
  ℕ, Bool, true, false, ◌&&◌, ◌||◌, ◌==◌, if◌then◌else◌, ℤ, pos, pos_part, ltb_ℤ, leb_ℤ, add64,
  sub64, shl64, sub_time,
}

abbrev pub max_breaker_cooldown_shift : ℤ
max_breaker_cooldown_shift = pos 10

-- BreakerOptions of gateway/internal/proxy/loadbalancer.go.
pub record BreakerOptions : Type 0 where
  pub threshold : ℤ
  pub cooldown : ℤ

pub record OriginState : Type 0 where
  pub last_failure_at : ℕ
  pub forced_down : Bool
  pub consecutive_failures : ℤ

-- The zero value that a new origin starts from.
abbrev pub new_origin_state : OriginState
new_origin_state = record { last_failure_at = 0; forced_down = false; consecutive_failures = pos 0 }

-- `IsZero` of a time.
abbrev pub is_zero : ℕ → Bool
is_zero t = t == 0

unfoldable pub record_failure : ℕ → OriginState → OriginState
record_failure now s = record s {
  last_failure_at = now;
  consecutive_failures = add64 s.consecutive_failures (pos 1);
}

unfoldable pub record_success : OriginState → OriginState
record_success s = record s { last_failure_at = 0; consecutive_failures = pos 0 }

unfoldable pub set_forced_down : Bool → OriginState → OriginState
set_forced_down down s = record s { forced_down = down }

-- The shift is never negative where this is called, so `<<` does not
-- panic and its count is the shift's positive part.
unfoldable pub escalated_cooldown : ℤ → ℤ → ℤ
escalated_cooldown base shift = shl64 base (
    pos_part (if ltb_ℤ max_breaker_cooldown_shift shift then max_breaker_cooldown_shift else shift))

unfoldable pub available : ℕ → ℤ → BreakerOptions → OriginState → Bool
available now cooldown breaker s =
    if s.forced_down
    then false
    else if is_zero s.last_failure_at
    then true
    else ltb_ℤ
        (if ltb_ℤ (pos 0) breaker.threshold && leb_ℤ breaker.threshold s.consecutive_failures
          then escalated_cooldown breaker.cooldown (sub64 s.consecutive_failures breaker.threshold)
          else cooldown)
        (sub_time now s.last_failure_at)

unfoldable pub breaker_open : ℕ → BreakerOptions → OriginState → Bool
breaker_open now breaker s =
    if leb_ℤ breaker.threshold (pos 0) || ltb_ℤ s.consecutive_failures breaker.threshold
    then false
    else leb_ℤ (sub_time now s.last_failure_at)
        (escalated_cooldown breaker.cooldown (sub64 s.consecutive_failures breaker.threshold))
