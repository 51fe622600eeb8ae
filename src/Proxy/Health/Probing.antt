-- ===== src/Proxy/Health/Probing.antt =====
-- What active probing does to the origins.
use dealer.Base.{ℕ, suc, ◌≡◌, refl, Option, List, [], ◌∷◌, get_elem?, not, String, zero}
use mathlib.Core.Option
use dealer.Proxy.Origin.{set_forced_down}
use dealer.Proxy.LoadBalancer.{RoundRobinOrigin}
use dealer.Proxy.Health.{Prober, probe, probe_once}

module _ (get : String → Option ℕ) where
  -- Each origin is held down exactly if its own probe fails, and nothing else of it changes.
  pub probe_once-get_elem? :
      (p : Prober) (origins : List RoundRobinOrigin) (i : ℕ)
      → get_elem? (probe_once get p origins) i
        ≡ Option.map
            (λ o. record {
              url = o.url;
              state = record {
                last_failure_at = o.state.last_failure_at;
                forced_down = not (probe get p o.url);
                consecutive_failures = o.state.consecutive_failures;
              };
            })
            (get_elem? origins i)
  unfolding probe_once set_forced_down
  probe_once-get_elem? p [] i = refl
  probe_once-get_elem? p (o ∷ os) zero = refl
  probe_once-get_elem? p (o ∷ os) (suc i) = probe_once-get_elem? p os i
