-- ===== src/Proxy/Origin/History.antt =====
-- An origin's state against the history of its requests and probes.
use dealer.Base.{
  ℕ, suc, ◌+◌, ◌-◌, ◌≤◌, ◌<◌, ◌≡◌, ◌≢◌, refl, ◌↔◌, Bool, true, false, not, arith, List, [], ◌∷◌,
  All, length, ℤ, pos, InRange, add64-pos, sub_time-later,
}
use dealer.Proxy.Origin.{
  OriginState, new_origin_state, record_failure, record_success, set_forced_down, available,
}
use dealer.Proxy.Origin.Breaker.{IsValid}

-- What the proxy and the prober report of an origin.
pub data Report : Type 0 where
  failed : ℕ → Report
  succeeded : Report
  probed : Bool → Report

abbrev pub apply_report : Report → OriginState → OriginState
apply_report (failed now) s = record_failure now s
apply_report succeeded s = record_success s
apply_report (probed up) s = set_forced_down (not up) s

-- The state after a history, the newest report first.
pub state_after : List Report → OriginState
state_after [] = new_origin_state
state_after (r ∷ rs) = apply_report r (state_after rs)

-- The failures since the last success.
abbrev pub streak : List Report → ℕ
streak [] = 0
streak (failed now ∷ rs) = suc (streak rs)
streak (succeeded ∷ rs) = 0
streak (probed up ∷ rs) = streak rs

-- The time of the last failure since the last success, or 0.
abbrev pub last_failure : List Report → ℕ
last_failure [] = 0
last_failure (failed now ∷ rs) = now
last_failure (succeeded ∷ rs) = 0
last_failure (probed up ∷ rs) = last_failure rs

-- The last probe found the origin down.
abbrev pub is_down : List Report → Bool
is_down [] = false
is_down (failed now ∷ rs) = is_down rs
is_down (succeeded ∷ rs) = is_down rs
is_down (probed up ∷ rs) = not up

streak-le-length : (rs : List Report) → streak rs ≤ length rs
streak-le-length [] = omega arith
streak-le-length (failed now ∷ rs) = omega (arith, streak-le-length rs)
streak-le-length (succeeded ∷ rs) = omega arith
streak-le-length (probed up ∷ rs) = omega (arith, streak-le-length rs)

-- The state is what the history says: the number of failures since the last success, the time of
-- the last of them, or zero, and whether the last probe found the origin down; as long as the
-- length of the history stays in the range of an int.
pub state_after_lem :
    (rs : List Report)
    → InRange (length rs)
    → state_after rs ≡ record {
      last_failure_at = last_failure rs;
      forced_down = is_down rs;
      consecutive_failures = pos (streak rs);
    }
unfolding state_after record_failure record_success set_forced_down
state_after_lem [] h = refl
state_after_lem (failed now ∷ rs) h =
    ground (arith, state_after_lem rs, add64-pos (streak rs) 1, streak-le-length rs)
state_after_lem (succeeded ∷ rs) h = ground (arith, state_after_lem rs)
state_after_lem (probed up ∷ rs) h = ground (arith, state_after_lem rs)

-- No failure is reported at the zero time.
abbrev pub IsTimed : Report → Type 0
IsTimed (failed now) = now ≢ 0
IsTimed succeeded = Unit
IsTimed (probed up) = Unit

timed_streak : (rs : List Report) → All IsTimed rs → last_failure rs ≡ 0 → streak rs ≡ 0
timed_streak [] h e = refl
timed_streak (failed now ∷ rs) h e = absurd (h.0 e)
timed_streak (succeeded ∷ rs) h e = refl
timed_streak (probed up ∷ rs) h e = timed_streak rs h.1 e

-- Every state that requests and probes lead to is a valid one.
pub state_after-IsValid :
    (rs : List Report) → All IsTimed rs → InRange (length rs) → IsValid (state_after rs)
state_after-IsValid rs h r = record {
  failures = streak rs;
  counted = rw (state_after_lem rs r);
  in_range = omega (arith, streak-le-length rs);
  timed = rw (state_after_lem rs r) (timed_streak rs h);
}

-- Below the threshold only the plain cooldown counts: after a history whose last probe did not
-- find the origin down, and that has a failure since its last success, the origin is available
-- exactly when more than the cooldown has passed since the last failure; no failure is reported at
-- the zero time or later than now, and both the history and the time since fit their types.
pub available-state_after :
    (rs : List Report) (now cooldown threshold : ℕ) (base : ℤ)
    → All IsTimed rs
    → InRange (length rs)
    → is_down rs ≡ false
    → 0 < streak rs
    → streak rs < threshold
    → last_failure rs ≤ now
    → InRange (now - last_failure rs)
    → (available now
          (pos cooldown)
          (record { threshold = pos threshold; cooldown = base })
          (state_after rs)
        ≡ true)
      ↔ (last_failure rs + cooldown < now)
unfolding available
available-state_after rs now cooldown threshold base h r up some_failed below later near =
    rw (state_after_lem rs r)
      (ground (arith, sub_time-later now (last_failure rs), timed_streak rs h))
