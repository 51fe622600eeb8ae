-- ===== src/Proxy/LoadBalancer/Interleaving.antt =====
-- Concurrent requests to the load balancer of gateway/internal/proxy/loadbalancer.go, with the
-- rounds of a prober between them, as sequences of steps: a request that chooses, an attempt that
-- ends, a round of probes. An attempt may end at any later time.
pub mod Counts
pub mod Readiness
mod Examples
use dealer.Base.{
  inl, inr, ap, subst, ℕ, zero, suc, ◌+◌, ◌%◌, ◌≤◌, ◌<◌, ◌≡◌, ◌≢◌, refl, List, [], ◌∷◌, ◌++◌,
  String, Option, none, some, arith, length, get_elem?, set, All, All-get_elem?, length-set,
  lt_of_get_elem?, pos, InRange, two64, add64-pos, not,
}
use native.Mathlib.Nat.{mod-lt}
use dealer.Proxy.Origin.{OriginState, record_failure, record_success, set_forced_down}
use dealer.Proxy.Origin.Breaker.{IsValid}
use dealer.Proxy.LoadBalancer.{
  RoundRobinOrigin, RoundRobinProxy, Choice, attempt, fast_fail, choose, with_state,
}
use dealer.Proxy.LoadBalancer.Serving.{choose-cases}
use dealer.Proxy.LoadBalancer.Effects.{IsReady, All-set}
use dealer.Proxy.Health.{Prober, probe_once, probe}

-- The load balancer, and the origins at which attempts are under way.
pub record System : Type 0 where
  pub lb : RoundRobinProxy
  pub in_flight : List ℕ

abbrev pub start_of : RoundRobinProxy → ℕ
start_of lb = (lb.next + 1) % two64

abbrev pub started : RoundRobinProxy → RoundRobinProxy
started lb = record lb { next = start_of lb }

abbrev pub replace : RoundRobinProxy → ℕ → RoundRobinOrigin → OriginState → RoundRobinProxy
replace lb i o s = record lb { origins = set lb.origins i (with_state o s) }

pub data Step : System → System → Type 0 where
  begins :
      (lb : RoundRobinProxy) (flights : List ℕ) (now i : ℕ)
      → choose (started lb) now (start_of lb) ≡ attempt i
      → Step
          (record { lb = lb; in_flight = flights })
          (record { lb = started lb; in_flight = i ∷ flights })
  is_refused :
      (lb : RoundRobinProxy) (flights : List ℕ) (now i : ℕ)
      → choose (started lb) now (start_of lb) ≡ fast_fail i
      → Step
          (record { lb = lb; in_flight = flights })
          (record { lb = started lb; in_flight = flights })
  succeeds :
      (lb : RoundRobinProxy) (others later : List ℕ) (i : ℕ) (o : RoundRobinOrigin)
      → get_elem? lb.origins i ≡ some o
      → Step
          (record { lb = lb; in_flight = others ++ i ∷ later })
          (record { lb = replace lb i o (record_success o.state); in_flight = others ++ later })
  fails :
      (lb : RoundRobinProxy) (others later : List ℕ) (i now : ℕ) (o : RoundRobinOrigin)
      → now ≢ 0
      → get_elem? lb.origins i ≡ some o
      → Step
          (record { lb = lb; in_flight = others ++ i ∷ later })
          (record { lb = replace lb i o (record_failure now o.state); in_flight = others ++ later })
  probes :
      (lb : RoundRobinProxy) (flights : List ℕ) (get : String → Option ℕ) (p : Prober)
      → Step
          (record { lb = lb; in_flight = flights })
          (record { lb = record lb { origins = probe_once get p lb.origins }; in_flight = flights })

-- What some number of steps leads to.
pub data Reach (first : System) : ℕ → System → Type 0 where
  here : Reach first 0 first
  next : {n : ℕ} {s t : System} → Reach first n s → Step s t → Reach first (suc n) t
