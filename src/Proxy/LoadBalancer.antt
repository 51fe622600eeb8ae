-- ===== src/Proxy/LoadBalancer.antt =====
-- gateway/internal/proxy/loadbalancer.go, and the construction checks of proxy.go: a service's
-- origins, tried in turn. What an attempt at an origin does is a parameter: `dial` gives the
-- response that the origin's reverse proxy passes on, or the error of its round trip, and `A` is
-- what is written to the client. `none` stands for a panic.
pub mod Selection
pub mod Serving
pub mod Effects
pub mod Interleaving
use dealer.Base.{
  ℕ, zero, suc, ◌+◌, ◌%◌, Bool, Option, none, some, List, [], ◌∷◌, ◌++◌, String, if◌then◌else◌,
  ◌||◌, is_empty, length, get_elem?, set, ℤ, two64, Result, ok, err, ◌>>=◌,
}
use dealer.Proxy.Origin.{
  OriginState, BreakerOptions, new_origin_state, record_failure, record_success, available,
  breaker_open,
}

pub record RoundRobinOrigin : Type 0 where
  pub url : String
  pub state : OriginState

pub record RoundRobinProxy : Type 0 where
  pub name : String
  pub origins : List RoundRobinOrigin
  pub cooldown : ℤ
  pub breaker : BreakerOptions
  pub next : ℕ  -- atomic.Uint64

-- The parts of a parsed URL that the construction reads.
pub record Url : Type 0 where
  pub scheme : String
  pub host : String

pub data ProxyError : Type 0 where
  no_origin : String → ProxyError
  invalid_origin_url : String → ProxyError
  missing_scheme_or_host : String → ProxyError

-- NewReverseProxy's checks; `parse_url` is Go's url.Parse, `none` its error.
unfoldable pub new_reverse_proxy : (String → Option Url) → String → Result ProxyError Url
new_reverse_proxy parse_url origin_url = elim (parse_url origin_url) [
  | none ↦ err (invalid_origin_url origin_url)
  | some target ↦
      if is_empty target.scheme || is_empty target.host
      then err (missing_scheme_or_host origin_url)
      else ok target
]

-- The loop of NewOriginProxy.
unfoldable pub new_origins :
    (String → Option Url) → List String → Result ProxyError (List RoundRobinOrigin)
unfolding new_reverse_proxy
new_origins parse_url [] = ok []
new_origins parse_url (u ∷ us) = do
  target ← new_reverse_proxy parse_url u
  rest ← new_origins parse_url us
  ok (record { url = u; state = new_origin_state } ∷ rest)

unfoldable pub new_origin_proxy :
    (String → Option Url)
    → String
    → List String
    → ℤ
    → BreakerOptions
    → Result ProxyError RoundRobinProxy
unfolding new_origins
new_origin_proxy parse_url name [] cooldown breaker = err (no_origin name)
new_origin_proxy parse_url name (u ∷ us) cooldown breaker = do
  origins ← new_origins parse_url (u ∷ us)
  ok (record { name = name; origins = origins; cooldown = cooldown; breaker = breaker; next = 0 })

-- What ServeHTTP does with a request: attempt an origin, answer 502 with no attempt because the
-- breaker of the fallback is open, or panic on an index out of range.
pub data Choice : Type 0 where
  attempt : ℕ → Choice
  fast_fail : ℕ → Choice
  panics : Choice

-- (start + i) % n in uint64 arithmetic.
abbrev pub turn : ℕ → ℕ → ℕ → ℕ
turn n start i = (start + i) % two64 % n

unfoldable pub choose_fallback : RoundRobinProxy → ℕ → ℕ → Choice
choose_fallback lb now start = elim (get_elem? lb.origins (start % length lb.origins)) [
  | none ↦ panics
  | some o ↦
      if breaker_open now lb.breaker o.state
      then fast_fail (start % length lb.origins)
      else attempt (start % length lb.origins)
]

-- The loop of ServeHTTP, with the rounds that are left and the round's number.
unfoldable pub choose_from : RoundRobinProxy → ℕ → ℕ → ℕ → ℕ → Choice
unfolding choose_fallback
choose_from lb now start zero i = choose_fallback lb now start
choose_from lb now start (suc rounds) i =
    let later = choose_from lb now start rounds (i + 1) in
    elim (get_elem? lb.origins (turn (length lb.origins) start i)) [
      | none ↦ panics
      | some o ↦
          if available now lb.cooldown lb.breaker o.state
          then attempt (turn (length lb.origins) start i)
          else later
    ]

unfoldable pub choose : RoundRobinProxy → ℕ → ℕ → Choice
unfolding choose_from
choose lb now start = choose_from lb now start (length lb.origins) 0

-- The wrapped ModifyResponse and ErrorHandler of one origin: a response is a success, an error a
-- failure at the time `later`, answered by a 502.
abbrev pub with_state : RoundRobinOrigin → OriginState → RoundRobinOrigin
with_state o s = record o { state = s }

module _ {A E : Type 0} (bad_gateway : String → A) (dial : RoundRobinOrigin → Result E A) where
  unfoldable pub forward : RoundRobinProxy → ℕ → ℕ → RoundRobinProxy × Option A
  forward lb later i = elim (get_elem? lb.origins i) [
    | none ↦ (lb, none)
    | some o ↦ elim (dial o) [
      | ok response ↦ (
        record lb { origins = set lb.origins i (with_state o (record_success o.state)) },
        some response,
      )
      | err e ↦ (
        record lb { origins = set lb.origins i (with_state o (record_failure later o.state)) },
        some (bad_gateway lb.name),
      )
    ]
  ]

  unfoldable pub carry_out : RoundRobinProxy → ℕ → Choice → RoundRobinProxy × Option A
  unfolding forward
  carry_out lb later (attempt i) = forward lb later i
  carry_out lb later (fast_fail i) = (lb, some (bad_gateway lb.name))
  carry_out lb later panics = (lb, none)

  -- ServeHTTP: `now` is read before the choice, `later` is the time of a failure.
  unfoldable pub serve_http : RoundRobinProxy → ℕ → ℕ → RoundRobinProxy × Option A
  unfolding carry_out choose
  serve_http lb now later =
      let start = (lb.next + 1) % two64 in
      let started = record lb { next = start } in carry_out started later (choose started now start)

-- What a prober is given of an origin: its URL and the pointer to its state, as the origin's number.
pub record ProbeTarget : Type 0 where
  pub url : String
  pub state : ℕ

unfoldable pub targets_from : ℕ → List RoundRobinOrigin → List ProbeTarget
targets_from i [] = []
targets_from i (o ∷ os) = record { url = o.url; state = i } ∷ targets_from (suc i) os

-- ProbeTargets
unfoldable pub probe_targets : RoundRobinProxy → List ProbeTarget
unfolding targets_from
probe_targets lb = targets_from 0 lb.origins
