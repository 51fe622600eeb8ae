-- ===== src/Proxy/LoadBalancer/Interleaving/Readiness.antt =====
-- What the load balancer of gateway/internal/proxy/loadbalancer.go keeps under every interleaving of
-- requests and probes.
use dealer.Base.{
  ℤ, ok, >>=-eq-ok, inl, inr, ap, subst, ℕ, zero, suc, ◌+◌, ◌<◌, ◌≡◌, refl, List, [], ◌∷◌, ◌++◌,
  String, Option, arith, length, All, All-get_elem?, length-set, InRange, two64,
}
use native.Mathlib.Nat.{mod-lt}
use dealer.Proxy.Origin.{
  OriginState, BreakerOptions, new_origin_state, record_failure, record_success,
}
use dealer.Proxy.LoadBalancer.{RoundRobinOrigin, RoundRobinProxy, attempt, choose, with_state}
use dealer.Proxy.LoadBalancer.Serving.{choose-cases}
use dealer.Proxy.LoadBalancer.Effects.{IsReady, All-set}
use dealer.Proxy.Health.{Prober, probe_once}
use dealer.Proxy.LoadBalancer.{Url, new_origins, new_origin_proxy, new_reverse_proxy}
use dealer.Proxy.LoadBalancer.Interleaving.Counts.{
  IsCounted, success-IsCounted, failure-IsCounted, All-later, All-probed, fresh, All-IsValid,
}
use dealer.Proxy.LoadBalancer.Interleaving.{
  System, Step, begins, is_refused, succeeds, fails, probes, Reach, here, next, started, start_of,
  replace,
}

-- What holds after some number of steps: each attempt under way is at an origin.
pub record IsRunning (steps : ℕ) (s : System) : Type 0 where
  pub some_origin : 0 < length s.lb.origins
  pub counts : All (IsCounted steps) s.lb.origins
  pub counter : s.lb.next < two64
  pub targets : All (λ i. i < length s.lb.origins) s.in_flight

length-probe_once :
    (get : String → Option ℕ) (p : Prober) (os : List RoundRobinOrigin)
    → length (probe_once get p os) ≡ length os
unfolding probe_once
length-probe_once get p [] = refl
length-probe_once get p (o ∷ os) = ap suc (length-probe_once get p os)

All-without : (P : ℕ → Type 0) (xs ys : List ℕ) (i : ℕ) → All P (xs ++ i ∷ ys) → All P (xs ++ ys)
All-without P [] ys i h = h.1
All-without P (x ∷ xs) ys i h = (h.0, All-without P xs ys i h.1)

replaced-IsRunning :
    (n : ℕ) (lb : RoundRobinProxy) (others later : List ℕ) (i : ℕ) (o : RoundRobinOrigin)
    (s : OriginState)
    → IsRunning n (record { lb = lb; in_flight = others ++ i ∷ later })
    → IsCounted (suc n) (with_state o s)
    → IsRunning (suc n) (record { lb = replace lb i o s; in_flight = others ++ later })
replaced-IsRunning n lb others later i o s r c = record {
  some_origin = rw (length-set lb.origins i (with_state o s)) r.some_origin;
  counts = All-set (IsCounted (suc n)) lb.origins i (All-later n lb.origins r.counts) c;
  counter = r.counter;
  targets =
      rw (length-set lb.origins i (with_state o s))
        (All-without (λ j. j < length lb.origins) others later i r.targets);
}

started-IsRunning :
    (n : ℕ) (lb : RoundRobinProxy) (flights flights' : List ℕ)
    → IsRunning n (record { lb = lb; in_flight = flights })
    → All (λ i. i < length lb.origins) flights'
    → IsRunning (suc n) (record { lb = started lb; in_flight = flights' })
started-IsRunning n lb flights flights' r h = record {
  some_origin = r.some_origin;
  counts = All-later n lb.origins r.counts;
  counter = mod-lt (lb.next + 1) (omega arith);
  targets = h;
}

chosen_in_range :
    (lb : RoundRobinProxy) (now start i : ℕ)
    → 0 < length lb.origins
    → choose lb now start ≡ attempt i
    → i < length lb.origins
chosen_in_range lb now start i h e = elim (choose-cases lb now start h) [
  | inl (j, l, e') ↦ let same : j ≡ i = cc in subst (λ k. k < length lb.origins) same l
  | inr (j, e') ↦ cc
]

Step-IsRunning :
    {s t : System} (n : ℕ) → InRange (suc n) → Step s t → IsRunning n s → IsRunning (suc n) t
Step-IsRunning n m (begins lb flights now i e) r =
    started-IsRunning n lb flights (i ∷ flights) r
      (chosen_in_range (started lb) now (start_of lb) i r.some_origin e, r.targets)
Step-IsRunning n m (is_refused lb flights now i e) r =
    started-IsRunning n lb flights flights r r.targets
Step-IsRunning n m (succeeds lb others later i o found) r =
    replaced-IsRunning n lb others later i o (record_success o.state) r
      (success-IsCounted (suc n) o)
Step-IsRunning n m (fails lb others later i now o h found) r =
    replaced-IsRunning n lb others later i o (record_failure now o.state) r
      (failure-IsCounted n now o h m (All-get_elem? (IsCounted n) lb.origins i r.counts found))
Step-IsRunning n m (probes lb flights get p) r = record {
  some_origin = rw (length-probe_once get p lb.origins) r.some_origin;
  counts = All-probed (suc n) get p lb.origins (All-later n lb.origins r.counts);
  counter = r.counter;
  targets = rw (length-probe_once get p lb.origins) r.targets;
}

Reach-IsRunning :
    {first s : System} (n : ℕ) → InRange n → IsRunning 0 first → Reach first n s → IsRunning n s
Reach-IsRunning zero m r here = r
Reach-IsRunning (suc n) m r (next reach step) =
    Step-IsRunning n m step (Reach-IsRunning n (omega arith) r reach)

new_origins-IsCounted :
    (parse_url : String → Option Url) (urls : List String) (origins : List RoundRobinOrigin)
    → new_origins parse_url urls ≡ ok origins
    → All (IsCounted 0) origins × (length origins ≡ length urls)
unfolding new_origins
new_origins-IsCounted parse_url [] origins h =
    let none_left : [] ≡ origins = cc in
    subst (λ os. All (IsCounted 0) os × (length os ≡ 0)) none_left (tt, refl)
new_origins-IsCounted parse_url (u ∷ us) origins h =
    let (target, fine, more) = >>=-eq-ok (new_reverse_proxy parse_url u) _ h in
    let (rest, others, same) = >>=-eq-ok (new_origins parse_url us) _ more in
    let whole : record { url = u; state = new_origin_state } ∷ rest ≡ origins = cc in
    let (counted, measured) = new_origins-IsCounted parse_url us rest others in
    subst (λ os. All (IsCounted 0) os × (length os ≡ suc (length us))) whole
      ((fresh u, counted), ap suc measured)

new_origin_proxy-IsRunning :
    (parse_url : String → Option Url) (name : String) (urls : List String) (cooldown : ℤ)
    (breaker : BreakerOptions) (lb : RoundRobinProxy)
    → new_origin_proxy parse_url name urls cooldown breaker ≡ ok lb
    → IsRunning 0 (record { lb = lb; in_flight = [] })
unfolding new_origin_proxy
new_origin_proxy-IsRunning parse_url name [] cooldown breaker lb h = cc
new_origin_proxy-IsRunning parse_url name (u ∷ us) cooldown breaker lb h =
    let (origins, made, same) = >>=-eq-ok (new_origins parse_url (u ∷ us)) _ h in
    let built : record {
      name = name;
      origins = origins;
      cooldown = cooldown;
      breaker = breaker;
      next = 0;
    }
        ≡ lb =
      cc in
    let (counted, measured) = new_origins-IsCounted parse_url (u ∷ us) origins made in
    subst (λ b. IsRunning 0 (record { lb = b; in_flight = [] })) built
      (record {
        some_origin = omega (arith, measured);
        counts = counted;
        counter = omega arith;
        targets = tt;
      })

-- A load balancer that was constructed stays ready, and each attempt under way is at one of its
-- origins, under every interleaving of requests, of attempts that end in any order and of rounds of
-- probes, as long as the steps are fewer than 2 ^ 63.
pub Reach-IsReady :
    (parse_url : String → Option Url) (name : String) (urls : List String) (cooldown : ℤ)
    (breaker : BreakerOptions) (lb : RoundRobinProxy) (n : ℕ) (s : System)
    → new_origin_proxy parse_url name urls cooldown breaker ≡ ok lb
    → InRange n
    → Reach (record { lb = lb; in_flight = [] }) n s
    → IsReady s.lb × All (λ i. i < length s.lb.origins) s.in_flight
Reach-IsReady parse_url name urls cooldown breaker lb n s h m reach =
    let r =
      Reach-IsRunning n m (new_origin_proxy-IsRunning parse_url name urls cooldown breaker lb h)
        reach in
    (
      record {
        some_origin = r.some_origin;
        valid = All-IsValid n s.lb.origins m r.counts;
        counter = r.counter;
      },
      r.targets,
    )
