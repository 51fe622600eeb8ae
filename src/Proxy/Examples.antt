-- ===== src/Proxy/Examples.antt =====
-- The proxies' theorems at concrete origins, times and requests.
use dealer.Base.{
  ℕ, zero, suc, ◌+◌, ◌%◌, ◌^◌, ◌*◌, ◌-◌, ◌≤◌, ◌<◌, ◌≡◌, refl, ◌↔◌, true, false, not, arith, Option,
  some, List, [], ◌∷◌, String, str_eq, length, if◌then◌else◌, pos, Result, ok, err, shl64, sub64,
  sub_time, append, none, get_elem?, trim_suffix,
}
use dealer.Proxy.Origin.{
  OriginState, BreakerOptions, new_origin_state, escalated_cooldown, available, breaker_open,
}
use dealer.Proxy.Origin.Breaker.{
  IsValid, cap_shift, breaker_open_iff, available-breaker_open, breaker_open-overflow,
}
use dealer.Proxy.Origin.History.{Report, failed, succeeded, probed, state_after, state_after_lem}
use dealer.Proxy.LoadBalancer.{
  RoundRobinOrigin, RoundRobinProxy, attempt, fast_fail, turn, choose, serve_http,
}
use dealer.Proxy.LoadBalancer.Selection.{can_serve, is_open}
use dealer.Proxy.LoadBalancer.Serving.{choose-first, choose-fast_fail_iff, choose-not_open}
use dealer.Proxy.LoadBalancer.Effects.{IsReady, IsAnswer, serve_http-IsAnswer}
use dealer.Proxy.Health.{Prober, probe}
use dealer.Proxy.Health.Targets as Targets

-- Three failures trip the breaker for 30 nanoseconds.
abbrev breaker : BreakerOptions
breaker = record { threshold = pos 3; cooldown = pos 30 }

-- Five failures, the last one at the time 100: the breaker is open until 100 + 30 * 2 ^ 2.
abbrev tripped : OriginState
tripped = record { last_failure_at = 100; forced_down = false; consecutive_failures = pos 5 }

abbrev down_origin : RoundRobinOrigin
down_origin = record { url = "http://a"; state = tripped }

abbrev up_origin : RoundRobinOrigin
up_origin = record { url = "http://b"; state = new_origin_state }

abbrev mixed : RoundRobinProxy
mixed = record {
  name = "api";
  origins = down_origin ∷ up_origin ∷ [];
  cooldown = pos 10;
  breaker = breaker;
  next = 1;
}

abbrev all_down : RoundRobinProxy
all_down = record {
  name = "api";
  origins = down_origin ∷ down_origin ∷ [];
  cooldown = pos 10;
  breaker = breaker;
  next = 1;
}

tripped-IsValid : IsValid tripped
tripped-IsValid = record {
  failures = 5;
  counted = refl;
  in_range = omega arith;
  timed = λ e. omega arith;
}

fresh-IsValid : IsValid new_origin_state
fresh-IsValid = record { failures = 0; counted = refl; in_range = omega arith; timed = λ e. refl }

mixed-IsReady : IsReady mixed
mixed-IsReady = record {
  some_origin = omega arith;
  valid = (tripped-IsValid, (fresh-IsValid, tt));
  counter = omega arith;
}

-- The origin b answers, a refuses.
abbrev dial : RoundRobinOrigin → Result String String
dial o = if str_eq o.url "http://b" then ok "hello" else err "refused"

abbrev bad_gateway : String → String
bad_gateway name = append "502 " name

served : (serve_http bad_gateway dial mixed 120 130).1 ≡ some "hello"
unfolding serve_http available escalated_cooldown shl64 sub64 sub_time
served = refl

refused_fast : (serve_http bad_gateway dial all_down 120 130).1 ≡ some "502 api"
unfolding serve_http available breaker_open escalated_cooldown shl64 sub64 sub_time
refused_fast = refl

serve_http-IsAnswer_example :
    (a : String) × ((serve_http bad_gateway dial mixed 120 130).1 ≡ some a)
    × IsAnswer bad_gateway dial mixed 120 a
serve_http-IsAnswer_example = serve_http-IsAnswer bad_gateway dial mixed 120 130 mixed-IsReady

b_can_serve : can_serve mixed 120 1 ≡ true
unfolding available
b_can_serve = refl

a_cannot_serve : can_serve mixed 120 0 ≡ false
unfolding available escalated_cooldown shl64 sub64 sub_time
a_cannot_serve = refl

only_a_before : (j : ℕ) → j < 1 → can_serve mixed 120 (turn 2 2 j) ≡ false
only_a_before zero l = a_cannot_serve
only_a_before (suc j) l = absurd (omega arith)

choose-first_example : choose mixed 120 2 ≡ attempt 1
choose-first_example = choose-first mixed 120 2 1 (omega arith) b_can_serve only_a_before

choose-fast_fail_iff_example : (choose all_down 120 2 ≡ fast_fail 0) ↔ (
    ((j : ℕ) → can_serve all_down 120 j ≡ false)
    × (is_open all_down 120 0 ≡ true)
    × (0 ≡ 2 % length all_down.origins))
choose-fast_fail_iff_example = choose-fast_fail_iff all_down 120 2 0 (omega arith) (omega arith)

chooses_b : choose mixed 120 2 ≡ attempt 1
unfolding choose available escalated_cooldown shl64 sub64 sub_time
chooses_b = refl

choose-not_open_example : is_open mixed 120 1 ≡ false
choose-not_open_example = choose-not_open mixed 120 2 1 (omega arith) mixed-IsReady.valid chooses_b

breaker_open_iff_example :
    (breaker_open 150 (record { threshold = pos 3; cooldown = pos 30 }) tripped ≡ true)
    ↔ (150 ≤ 100 + 30 * 2 ^ cap_shift (5 - 3))
breaker_open_iff_example =
    breaker_open_iff tripped 150 3 30 5 (omega arith) (omega arith) (omega arith) (omega arith) refl
      (omega arith) (omega arith)

available-breaker_open_example :
    available 150 (pos 10) breaker tripped ≡ not (breaker_open 150 breaker tripped)
available-breaker_open_example =
    available-breaker_open tripped 150 (pos 10) breaker tripped-IsValid (refl, refl) refl

-- Thirteen failures against a threshold of three, with a cooldown of 2 ^ 53 nanoseconds.
abbrev long_tripped : OriginState
long_tripped = record { last_failure_at = 100; forced_down = false; consecutive_failures = pos 13 }

breaker_open-overflow_example :
    breaker_open 101 (record { threshold = pos 3; cooldown = pos 9007199254740992 }) long_tripped
    ≡ false
breaker_open-overflow_example =
    breaker_open-overflow long_tripped 101 3 9007199254740992 13 (omega arith) (omega arith)
      (omega arith) (omega arith) (omega arith) refl (omega arith)

abbrev history : List Report
history = failed 100 ∷ probed true ∷ failed 90 ∷ succeeded ∷ failed 5 ∷ []

state_after_lem_example :
    state_after history
    ≡ record { last_failure_at = 100; forced_down = false; consecutive_failures = pos 2 }
state_after_lem_example = state_after_lem history (omega arith)

abbrev prober : Prober
prober = record { path = "/health"; interval = pos 10 }

-- Only b is healthy.
abbrev health_of : String → Option ℕ
health_of url = if str_eq url "http://b/health" then some 204 else some 500

abbrev up_prober : Prober
up_prober = record { path = "/up"; interval = pos 10 }

-- Only the origin b answers its probe.
abbrev answers : String → Option ℕ
answers url = if str_eq url "http://b/up" then some 200 else none

choose-probed_example :
    (i : ℕ) × (o : RoundRobinOrigin) × (choose (Targets.probed answers up_prober mixed) 120 0
      ≡ attempt i)
    × (get_elem? mixed.origins i ≡ some o)
    × (probe answers up_prober o.url ≡ true)
unfolding new_origin_state probe trim_suffix
choose-probed_example =
    Targets.choose-probed answers up_prober mixed 120 0 1 up_origin (omega arith) refl refl refl
