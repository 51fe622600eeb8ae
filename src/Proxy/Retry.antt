-- ===== src/Proxy/Retry.antt =====
-- gateway/internal/proxy/retry.go: a round trip retried on transient network errors. The wrapped
-- transport is a parameter, which gives the outcome of the n-th call with the request of that call;
-- so is rand.Int63n. What the transport was sent, and the delays that were slept, are recorded in
-- order. A backoff base is positive (gateway.New), so rand.Int63n is called within its domain up to
-- the base of 2 ^ 63 - 1.
pub mod Attempts
mod Examples
use dealer.Base.{
  ℕ, zero, suc, ◌+◌, ◌-◌, Bool, true, false, Option, none, some, List, [], ◌∷◌, ◌++◌, String,
  if◌then◌else◌, ◌||◌, not, ◌==◌, str_eq, ℤ, pos, leb_ℤ, add64, shl64, pos_part, Result, ok, err,
}

-- What the transport reads of a request.
pub record Outgoing : Type 0 where
  pub method : String
  pub body : Option (List ℕ)

-- A round trip's error, with whether it is a net.Error.
pub record TripError : Type 0 where
  pub message : String
  pub is_net_error : Bool

pub record RetryTransport : Type 0 where
  pub max_attempts : ℤ
  pub retry_unsafe : Bool
  pub backoff_base : ℤ

pub data Effect : Type 0 where
  sent : Outgoing → Effect
  slept : ℤ → Effect

pub record Trip (R : Type 0) : Type 0 where
  pub result : Result TripError R
  pub effects : List Effect

unfoldable pub is_retryable_error : TripError → Bool
is_retryable_error e = e.is_net_error

unfoldable pub method_is_retryable : RetryTransport → String → Bool
method_is_retryable t method =
    if str_eq method "GET" || str_eq method "HEAD" || str_eq method "OPTIONS"
    then true
    else t.retry_unsafe

-- `rand` is rand.Int63n(n), below its argument. The attempt is at least 1.
unfoldable pub backoff : (ℤ → ℤ) → RetryTransport → ℕ → ℤ
backoff rand t attempt =
    add64 (shl64 t.backoff_base (attempt - 1)) (rand (add64 t.backoff_base (pos 1)))

module _ {R : Type 0} (rand : ℤ → ℤ) (next : ℕ → Outgoing → Result TripError R) where
  abbrev pub after : List Effect → Trip R → Trip R
  after before trip = record { result = trip.result; effects = before ++ trip.effects }

  -- The loop of RoundTrip from the attempt `attempt`, with the attempts that are left after it.
  -- A body that was read is sent again from its start with each attempt.
  unfoldable pub try_from : RetryTransport → Outgoing → ℕ → ℕ → Trip R
  unfolding backoff
  try_from t req zero attempt = record { result = next attempt req; effects = sent req ∷ [] }
  try_from t req (suc left) attempt =
      let again =
        after (sent req ∷ slept (backoff rand t attempt) ∷ [])
          (try_from t req left (attempt + 1)) in
      elim (next attempt req) [
        | ok resp ↦ record { result = ok resp; effects = sent req ∷ [] }
        | err e ↦
            if is_retryable_error e
            then again
            else record { result = err e; effects = sent req ∷ [] }
      ]

  -- RoundTrip. `read` is io.ReadAll of a body, `err` its error.
  unfoldable pub round_trip :
      (List ℕ → Result TripError (List ℕ)) → RetryTransport → Outgoing → Trip R
  unfolding try_from method_is_retryable is_retryable_error
  round_trip read t req =
      if leb_ℤ t.max_attempts (pos 1) || not (method_is_retryable t req.method)
      then record { result = next 1 req; effects = sent req ∷ [] }
      else elim req.body [
        | none ↦ try_from t req (pos_part t.max_attempts - 1) 1
        | some body ↦ elim (read body) [
          | err e ↦ record { result = err e; effects = [] }
          | ok bytes ↦ try_from t (record req { body = some bytes }) (pos_part t.max_attempts - 1) 1
        ]
      ]
