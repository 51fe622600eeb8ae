-- ===== src/Proxy/LoadBalancer/Interleaving/Examples.antt =====
-- An interleaving of two requests and a round of probes.
use dealer.Base.{◌<◌, ◌≡◌, refl, arith, Option, some, [], ◌∷◌, String, pos, All, length, ok}
use dealer.Proxy.Origin.{BreakerOptions, new_origin_state, available}
use dealer.Proxy.LoadBalancer.{
  RoundRobinOrigin, RoundRobinProxy, Url, attempt, choose, new_origin_proxy,
}
use dealer.Proxy.LoadBalancer.Effects.{IsReady}
use dealer.Proxy.LoadBalancer.Interleaving.{
  System, begins, fails, Reach, here, next, started, start_of, replace,
}
use dealer.Proxy.LoadBalancer.Interleaving.Readiness.{Reach-IsReady}
use dealer.Proxy.Origin.{record_failure}

abbrev breaker : BreakerOptions
breaker = record { threshold = pos 3; cooldown = pos 30 }

abbrev parse_url : String → Option Url
parse_url s = some (record { scheme = "http"; host = s })

abbrev origin : String → RoundRobinOrigin
origin url = record { url = url; state = new_origin_state }

abbrev first : RoundRobinProxy
first = record {
  name = "api";
  origins = origin "a" ∷ origin "b" ∷ [];
  cooldown = pos 10;
  breaker = breaker;
  next = 0;
}

constructed : new_origin_proxy parse_url "api" ("a" ∷ "b" ∷ []) (pos 10) breaker ≡ ok first
unfolding new_origin_proxy
constructed = refl

-- Both requests are under way before the first one, at b, fails.
abbrev both : RoundRobinProxy
both = started (started first)

abbrev failed_first : System
failed_first = record {
  lb = replace both 1 (origin "b") (record_failure 130 new_origin_state);
  in_flight = 0 ∷ [];
}

first_at_b : choose (started first) 120 (start_of first) ≡ attempt 1
unfolding choose available
first_at_b = refl

second_at_a : choose both 125 (start_of (started first)) ≡ attempt 0
unfolding choose available
second_at_a = refl

interleaved : Reach (record { lb = first; in_flight = [] }) 3 failed_first
interleaved =
    next
      (next (next here (begins first [] 120 1 first_at_b))
        (begins (started first) (1 ∷ []) 125 0 second_at_a))
      (fails both (0 ∷ []) [] 1 130 (origin "b") (λ e. omega arith) refl)

Reach-IsReady_example :
    IsReady failed_first.lb × All (λ i. i < length failed_first.lb.origins) failed_first.in_flight
Reach-IsReady_example =
    Reach-IsReady parse_url "api" ("a" ∷ "b" ∷ []) (pos 10) breaker first 3 failed_first constructed
      (omega arith) interleaved
