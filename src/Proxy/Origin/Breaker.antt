-- ===== src/Proxy/Origin/Breaker.antt =====
-- The circuit breaker of gateway/internal/proxy/origin.go: when an origin is attempted, and how
-- long a tripped breaker keeps it from being.
use dealer.Base.{
  ℕ, ◌+◌, ◌-◌, ◌*◌, ◌^◌, ◌≤◌, ◌<◌, ◌≡◌, ◌↔◌, true, false, not, arith, ltb, if◌then◌else◌, ℤ, pos,
  negsuc, pos_part, two64, InRange, ltb_ℤ, leb_ℤ, sub64-pos, shl64-pos, shl64-overflow,
  sub_time-nonneg, sub_time-later,
}
use native.Mathlib.Nat.{pow-le-pow_right, mul-le-mul}
use dealer.Proxy.Origin.{
  OriginState, BreakerOptions, record_success, escalated_cooldown, available, breaker_open,
}

-- A success makes an origin available at once, whatever the cooldowns, unless the prober holds it
-- down.
pub available-record_success :
    (s : OriginState) (now : ℕ) (cooldown : ℤ) (breaker : BreakerOptions)
    → available now cooldown breaker (record_success s) ≡ not s.forced_down
unfolding available record_success
available-record_success s now cooldown breaker = ground arith

-- What every state of an origin satisfies: no failure is counted without its time, and the count
-- is that of a number of failures.
pub record IsValid (s : OriginState) : Type 0 where
  pub failures : ℕ
  pub counted : s.consecutive_failures ≡ pos failures
  pub in_range : InRange failures
  pub timed : s.last_failure_at ≡ 0 → failures ≡ 0

abbrev pub IsTripped : BreakerOptions → OriginState → Type 0
IsTripped breaker s =
    (ltb_ℤ (pos 0) breaker.threshold ≡ true)
    × (leb_ℤ breaker.threshold s.consecutive_failures ≡ true)

-- While the threshold is reached, an origin in a valid state that is not held down is available
-- exactly when its breaker is not open: both change over at the same instant.
pub available-breaker_open :
    (s : OriginState) (now : ℕ) (cooldown : ℤ) (breaker : BreakerOptions)
    → IsValid s
    → IsTripped breaker s
    → s.forced_down ≡ false
    → available now cooldown breaker s ≡ not (breaker_open now breaker s)
unfolding available breaker_open
available-breaker_open s now cooldown breaker v t f = ground arith

-- Whatever the options, an origin that is attempted has no open breaker.
pub available→not_breaker_open :
    (s : OriginState) (now : ℕ) (cooldown : ℤ) (breaker : BreakerOptions)
    → IsValid s
    → available now cooldown breaker s ≡ true
    → breaker_open now breaker s ≡ false
unfolding available breaker_open
available→not_breaker_open s now cooldown breaker v h = ground arith

abbrev pub cap_shift : ℕ → ℕ
cap_shift shift = if ltb 10 shift then 10 else shift

cap_shift-le : (shift : ℕ) → cap_shift shift ≤ 10
cap_shift-le shift = ground arith

scaled-InRange : (base k : ℕ) → base < 2 ^ 53 → k ≤ 10 → InRange (base * 2 ^ k)
scaled-InRange base k h c =
    let b : base ≤ 9007199254740991 = omega arith in
    let p : 2 ^ k ≤ 1024 = pow-le-pow_right (omega arith) c in let m = mul-le-mul b p in omega arith

shift_of :
    (shift : ℕ)
    → pos_part (if ltb_ℤ (pos 10) (pos shift) then pos 10 else pos shift) ≡ cap_shift shift
shift_of shift = ground arith

-- The escalation, for a cooldown of less than 2 ^ 53 nanoseconds (104 days): it doubles with each
-- further failure up to the tenth and then stays, with no overflow.
pub escalated_cooldown_lem :
    (base shift : ℕ)
    → base < 2 ^ 53
    → escalated_cooldown (pos base) (pos shift) ≡ pos (base * 2 ^ cap_shift shift)
unfolding escalated_cooldown
escalated_cooldown_lem base shift h = rw (shift_of shift) (
    shl64-pos base (cap_shift shift) (scaled-InRange base (cap_shift shift) h (cap_shift-le shift)))

escalated_cooldown-overflow :
    (base shift : ℕ)
    → 2 ^ 53 ≤ base
    → base < 2 ^ 54
    → 10 ≤ shift
    → escalated_cooldown (pos base) (pos shift) ≡ negsuc (two64 - base * 2 ^ 10 - 1)
unfolding escalated_cooldown
escalated_cooldown-overflow base shift lo hi h =
    let top : cap_shift shift ≡ 10 = ground arith in
    rw (shift_of shift, top) (shl64-overflow base 10 (omega arith) (omega arith))

-- With `failures` at or above a positive threshold the breaker is open for exactly the escalated
-- cooldown after the last failure, `base * 2 ^ min (failures - threshold) 10` nanoseconds: for a
-- base below 2 ^ 53, and a last failure that is not later than now nor too far back for a Duration.
pub breaker_open_iff :
    (s : OriginState) (now threshold base failures : ℕ)
    → base < 2 ^ 53
    → 0 < threshold
    → threshold ≤ failures
    → InRange failures
    → s.consecutive_failures ≡ pos failures
    → s.last_failure_at ≤ now
    → InRange (now - s.last_failure_at)
    → (breaker_open now (record { threshold = pos threshold; cooldown = pos base }) s ≡ true)
      ↔ (now ≤ s.last_failure_at + base * 2 ^ cap_shift (failures - threshold))
unfolding breaker_open
breaker_open_iff s now threshold base failures small t over r f later near =
    rw
      (
        f,
        sub64-pos failures threshold over r,
        escalated_cooldown_lem base (failures - threshold) small,
        sub_time-later now s.last_failure_at later near,
      )
      (ground arith)

-- From 2 ^ 53 nanoseconds on the escalation overflows: with a cooldown from there to below 2 ^ 54,
-- once ten failures came after the one that tripped it, the breaker is closed at every time from
-- the last failure on.
pub breaker_open-overflow :
    (s : OriginState) (now threshold base failures : ℕ)
    → 2 ^ 53 ≤ base
    → base < 2 ^ 54
    → 0 < threshold
    → threshold + 10 ≤ failures
    → InRange failures
    → s.consecutive_failures ≡ pos failures
    → s.last_failure_at ≤ now
    → breaker_open now (record { threshold = pos threshold; cooldown = pos base }) s ≡ false
unfolding breaker_open
breaker_open-overflow s now threshold base failures lo hi t over r f later =
    rw
      (
        f,
        sub64-pos failures threshold (omega arith) r,
        escalated_cooldown-overflow base (failures - threshold) lo hi (omega arith),
      )
      (ground (arith, sub_time-nonneg now s.last_failure_at later))
