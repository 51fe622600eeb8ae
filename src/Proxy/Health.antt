-- ===== src/Proxy/Health.antt =====
-- gateway/internal/proxy/health.go: active probing. Each target is an origin of the load balancer,
-- whose state the prober shares. The HTTP client is a parameter, which gives the status code of a
-- GET, or none on an error.
pub mod Probing
pub mod Targets
use dealer.Base.{
  ℕ, Bool, true, false, Option, none, some, List, [], ◌∷◌, ◌++◌, String, ◌&&◌, not, leb, ltb,
  trim_suffix, append, ℤ, Event, select_loop, with_ticker, get_elem?, set,
}
use dealer.Proxy.Origin.{set_forced_down}
use dealer.Proxy.LoadBalancer.{RoundRobinOrigin, ProbeTarget, with_state}

pub record Prober : Type 0 where
  pub path : String
  pub interval : ℤ

module _ (get : String → Option ℕ) where
  unfoldable pub probe : Prober → String → Bool
  probe p origin_url = elim (get (append (trim_suffix origin_url "/") p.path)) [
    | none ↦ false
    | some status ↦ leb 200 status && ltb status 300
  ]

  -- The loop of probeOnce.
  unfoldable pub probe_once : Prober → List RoundRobinOrigin → List RoundRobinOrigin
  unfolding probe
  probe_once p [] = []
  probe_once p (o ∷ os) =
      with_state o (set_forced_down (not (probe p o.url)) o.state) ∷ probe_once p os

  -- A probe's result, written through the pointer of its target.
  abbrev pub mark_at :
      ℕ → Bool → Option RoundRobinOrigin → List RoundRobinOrigin → List RoundRobinOrigin
  mark_at i up none os = os
  mark_at i up (some o) os = set os i (with_state o (set_forced_down (not up) o.state))

  -- probeOnce, over the targets.
  unfoldable pub probe_each :
      Prober → List ProbeTarget → List RoundRobinOrigin → List RoundRobinOrigin
  unfolding probe
  probe_each p [] os = os
  probe_each p (t ∷ ts) os =
      probe_each p ts (mark_at t.state (probe p t.url) (get_elem? os t.state) os)

-- Start: a round at once, then one for each tick; the client's answers come with each round. None
-- where the ticker panics.
unfoldable pub start :
    Prober
    → (String → Option ℕ)
    → List (Event (String → Option ℕ))
    → List RoundRobinOrigin
    → Option (List RoundRobinOrigin × Bool)
unfolding probe_once select_loop
start p get events origins =
    with_ticker p.interval
      (select_loop (λ answers os. probe_once answers p os) events (probe_once get p origins))
