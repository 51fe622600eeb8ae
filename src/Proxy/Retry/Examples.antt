-- ===== src/Proxy/Retry/Examples.antt =====
-- The retry transport's theorems at concrete requests.
use dealer.Base.{
  ℕ, ◌+◌, ◌*◌, ◌^◌, ◌≤◌, ◌≡◌, refl, inl, true, false, arith, none, some, List, [], ◌∷◌, String, ℤ,
  pos, Result, ok, err, if◌then◌else◌, leb, add64, shl64,
}
use dealer.Proxy.Retry.{
  Outgoing, TripError, RetryTransport, sent, slept, Trip, method_is_retryable, backoff, round_trip,
}
use dealer.Proxy.Retry.Attempts.{sends, Retried, round_trip-Retried, backoff_bounds}

abbrev transport : RetryTransport
transport = record { max_attempts = pos 3; retry_unsafe = false; backoff_base = pos 100 }

abbrev get_request : Outgoing
get_request = record { method = "GET"; body = none }

abbrev post_request : Outgoing
post_request = record { method = "POST"; body = some (1 ∷ []) }

-- The first call fails with a network error.
abbrev flaky : ℕ → Outgoing → Result TripError String
flaky attempt out =
    if leb attempt 1 then err (record { message = "refused"; is_net_error = true }) else ok "hello"

abbrev no_jitter : ℤ → ℤ
no_jitter n = pos 0

abbrev read_all : List ℕ → Result TripError (List ℕ)
read_all bytes = ok bytes

abbrev trip : Outgoing → Trip String
trip out = round_trip no_jitter flaky read_all transport out

retried_once : trip get_request ≡ record {
  result = ok "hello";
  effects = sent get_request ∷ slept (pos 100) ∷ sent get_request ∷ [];
}
unfolding round_trip add64 shl64
retried_once = refl

get_retryable : method_is_retryable transport "GET" ≡ true
unfolding method_is_retryable
get_retryable = refl

round_trip-Retried_example :
    Retried no_jitter flaky get_request 2 1
      (trip get_request).result
      (sends (trip get_request).effects)
round_trip-Retried_example =
    round_trip-Retried no_jitter flaky read_all transport get_request get_request 1 refl
      get_retryable (inl (refl, refl))

backoff_bounds_example :
    (d : ℕ) × (backoff no_jitter transport (2 + 1) ≡ pos d)
    × (100 * 2 ^ 2 ≤ d)
    × (d ≤ 100 * 2 ^ 2 + 100)
backoff_bounds_example =
    backoff_bounds no_jitter transport 100 2 0 refl (omega arith) refl (omega arith)
