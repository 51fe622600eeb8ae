-- ===== src/Proxy/LoadBalancer/Interleaving/Counts.antt =====
-- The counts of failures of the origins of gateway/internal/proxy/loadbalancer.go, bounded by the
-- number of steps.
use dealer.Base.{
  ℕ, suc, ◌+◌, ◌≤◌, ◌≡◌, ◌≢◌, refl, List, [], ◌∷◌, String, Option, arith, All, pos, InRange,
  add64-pos,
}
use dealer.Proxy.Origin.{new_origin_state, record_failure, record_success, set_forced_down}
use dealer.Proxy.Origin.Breaker.{IsValid}
use dealer.Proxy.LoadBalancer.{RoundRobinOrigin, with_state}
use dealer.Proxy.Health.{Prober, probe_once}

-- An origin's count of failures, after some number of steps.
pub record IsCounted (steps : ℕ) (o : RoundRobinOrigin) : Type 0 where
  pub failures : ℕ
  pub counted : o.state.consecutive_failures ≡ pos failures
  pub bounded : failures ≤ steps
  pub timed : o.state.last_failure_at ≡ 0 → failures ≡ 0

pub later_too : (n : ℕ) (o : RoundRobinOrigin) → IsCounted n o → IsCounted (suc n) o
later_too n o c = record {
  failures = c.failures;
  counted = c.counted;
  bounded = omega (arith, c.bounded);
  timed = c.timed;
}

pub success-IsCounted :
    (n : ℕ) (o : RoundRobinOrigin) → IsCounted n (with_state o (record_success o.state))
unfolding record_success
success-IsCounted n o = record {
  failures = 0;
  counted = refl;
  bounded = omega arith;
  timed = λ e. refl;
}

pub failure-IsCounted :
    (n now : ℕ) (o : RoundRobinOrigin)
    → now ≢ 0
    → InRange (suc n)
    → IsCounted n o
    → IsCounted (suc n) (with_state o (record_failure now o.state))
unfolding record_failure
failure-IsCounted n now o h r c = record {
  failures = c.failures + 1;
  counted = rw (c.counted) (add64-pos c.failures 1 (omega (arith, c.bounded)));
  bounded = omega (arith, c.bounded);
  timed = λ e. absurd (h e);
}

pub All-later :
    (n : ℕ) (os : List RoundRobinOrigin) → All (IsCounted n) os → All (IsCounted (suc n)) os
All-later n [] c = tt
All-later n (o ∷ os) c = (later_too n o c.0, All-later n os c.1)

pub All-probed :
    (n : ℕ) (get : String → Option ℕ) (p : Prober) (os : List RoundRobinOrigin)
    → All (IsCounted n) os
    → All (IsCounted n) (probe_once get p os)
unfolding probe_once set_forced_down
All-probed n get p [] c = tt
All-probed n get p (o ∷ os) c = (
  record {
    failures = c.0.failures;
    counted = c.0.counted;
    bounded = c.0.bounded;
    timed = c.0.timed;
  },
  All-probed n get p os c.1,
)

pub fresh : (u : String) → IsCounted 0 (record { url = u; state = new_origin_state })
fresh u = record { failures = 0; counted = refl; bounded = omega arith; timed = λ e. refl }

IsCounted→IsValid : (n : ℕ) (o : RoundRobinOrigin) → InRange n → IsCounted n o → IsValid o.state
IsCounted→IsValid n o m c = record {
  failures = c.failures;
  counted = c.counted;
  in_range = omega (arith, c.bounded);
  timed = c.timed;
}

pub All-IsValid :
    (n : ℕ) (os : List RoundRobinOrigin)
    → InRange n
    → All (IsCounted n) os
    → All (λ o. IsValid o.state) os
All-IsValid n [] m c = tt
All-IsValid n (o ∷ os) m c = (IsCounted→IsValid n o m c.0, All-IsValid n os m c.1)
