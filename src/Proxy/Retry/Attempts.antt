-- ===== src/Proxy/Retry/Attempts.antt =====
-- How often, and when, gateway/internal/proxy/retry.go sends a request.
use dealer.Base.{
  ℕ, zero, suc, ◌+◌, ◌-◌, ◌*◌, ◌^◌, ◌≤◌, ◌<◌, ◌≡◌, ◌≢◌, sym, subst, ◌∙◌, ◌⊎◌, inl, inr, true, false,
  none, some, List, [], ◌∷◌, arith, eq_iff, ℤ, pos, leb_ℤ, pos_part, Result, ok, err, Bool-cases,
  Result-cases, Option-cases, InRange, add64-pos, shl64-pos,
}
use Prim.Native.Nat.{max}
use dealer.Proxy.Retry.{
  Outgoing, TripError, RetryTransport, Effect, sent, slept, is_retryable_error, method_is_retryable,
  backoff, try_from, round_trip,
}

-- The requests sent.
abbrev pub sends : List Effect → ℕ
sends [] = 0
sends (sent req ∷ es) = suc (sends es)
sends (slept d ∷ es) = sends es

ok≢err :
    {R : Type 0} {resp : R} {e : TripError} → ◌≡◌ {A = Result TripError R} (ok resp) (err e) → ⊥
ok≢err p = cc

not_both :
    {R : Type 0} (e e' : TripError)
    → is_retryable_error e ≡ false
    → is_retryable_error e' ≡ true
    → ◌≡◌ {A = Result TripError R} (err e) (err e')
    → ⊥
not_both e e' h k p = cc

module _ {R : Type 0} (rand : ℤ → ℤ) (next : ℕ → Outgoing → Result TripError R) where
  -- A transient failure of the attempt.
  abbrev pub IsTransient : Outgoing → ℕ → Type 0
  IsTransient req attempt =
      (e : TripError) × (next attempt req ≡ err e) × (is_retryable_error e ≡ true)

  -- The specification of the loop: the attempts are numbered in order, all before the last failed
  -- with a transient error, and the last one's outcome is the answer; it is a transient failure
  -- only if no attempt was left.
  pub data Retried (req : Outgoing) : ℕ → ℕ → Result TripError R → ℕ → Type 0 where
    last_allowed : (attempt : ℕ) → Retried req zero attempt (next attempt req) 1
    settled :
        (left attempt : ℕ)
        → ¬ (IsTransient req attempt)
        → Retried req (suc left) attempt (next attempt req) 1
    retried :
        {left attempt count : ℕ} {result : Result TripError R}
        → IsTransient req attempt
        → Retried req left (attempt + 1) result count
        → Retried req (suc left) attempt result (suc count)

  try_from-Retried :
      (t : RetryTransport) (req : Outgoing) (left attempt : ℕ)
      → Retried req left attempt
          (try_from rand next t req left attempt).result
          (sends (try_from rand next t req left attempt).effects)
  unfolding try_from
  try_from-Retried t req zero attempt = last_allowed attempt
  try_from-Retried t req (suc left) attempt = elim (Result-cases (next attempt req)) [
    | inl (resp, done) ↦
        rw (done, try_from)
          (subst (λ o. Retried req (suc left) attempt o 1) done
            (settled left attempt (λ (e, failed, _). ok≢err (sym done ∙ failed))))
    | inr (e, failed) ↦ elim (Bool-cases (is_retryable_error e)) [
      | inl transient ↦
          rw (failed, try_from)
            (rw transient
              (retried (e, failed, transient) (try_from-Retried t req left (attempt + 1))))
      | inr final ↦
          rw (failed, try_from)
            (rw final (
              subst (λ o. Retried req (suc left) attempt o 1) failed
                (settled left attempt (λ (e', failed', transient).
                  not_both e e' final transient (sym failed ∙ failed')))))
    ]
  ]

  -- The body that each attempt sends: what was read of the request's, or none.
  abbrev pub ReadAs : (List ℕ → Result TripError (List ℕ)) → Outgoing → Outgoing → Type 0
  ReadAs read req out =
      ((req.body ≡ none) × (out ≡ req))
      ⊎ ((body bytes : List ℕ) × (req.body ≡ some body)
          × (read body ≡ ok bytes)
          × (out ≡ record req { body = some bytes }))

  round_trip-try_from :
      (read : List ℕ → Result TripError (List ℕ)) (t : RetryTransport) (req out : Outgoing)
      (more : ℕ)
      → t.max_attempts ≡ pos (suc (suc more))
      → method_is_retryable t req.method ≡ true
      → ReadAs read req out
      → round_trip rand next read t req ≡ try_from rand next t out (suc more) 1
  unfolding round_trip
  round_trip-try_from read t req out more m r k =
      let e : suc (suc more) - 1 ≡ suc more = omega arith in ground arith

  -- With two attempts or more and a retryable method, a request whose body can be read is sent as
  -- the specification says, each time with the whole body, and is answered by its last attempt.
  pub round_trip-Retried :
      (read : List ℕ → Result TripError (List ℕ)) (t : RetryTransport) (req out : Outgoing)
      (more : ℕ)
      → t.max_attempts ≡ pos (suc (suc more))
      → method_is_retryable t req.method ≡ true
      → ReadAs read req out
      → Retried out
          (suc more)
          1
          (round_trip rand next read t req).result
          (sends (round_trip rand next read t req).effects)
  round_trip-Retried read t req out more m r k =
      rw (round_trip-try_from read t req out more m r k) (try_from-Retried t out (suc more) 1)

  -- Without retries, or with a method that is not retryable, a request is sent once as it is, and
  -- what comes back is the answer, an error too.
  pub round_trip-once :
      (read : List ℕ → Result TripError (List ℕ)) (t : RetryTransport) (req : Outgoing)
      → (leb_ℤ t.max_attempts (pos 1) ≡ true) ⊎ (method_is_retryable t req.method ≡ false)
      → round_trip rand next read t req ≡ record { result = next 1 req; effects = sent req ∷ [] }
  unfolding round_trip
  round_trip-once read t req h = ground arith

  Retried-count :
      {req : Outgoing} {left attempt count : ℕ} {result : Result TripError R}
      → Retried req left attempt result count
      → (1 ≤ count) × (count ≤ left + 1)
  Retried-count (last_allowed attempt) = omega arith
  Retried-count (settled left attempt h) = omega arith
  Retried-count (retried h r) = omega (arith, Retried-count r)

  sends-try_from :
      (t : RetryTransport) (req : Outgoing) (left attempt : ℕ)
      → sends (try_from rand next t req left attempt).effects ≤ left + 1
  sends-try_from t req left attempt =
      omega (arith, Retried-count (try_from-Retried t req left attempt))

  -- Whatever the origin does, a request is sent at most `max_attempts` times, and at most once if
  -- that is less than two.
  pub sends-round_trip :
      (read : List ℕ → Result TripError (List ℕ)) (t : RetryTransport) (req : Outgoing)
      → sends (round_trip rand next read t req).effects ≤ max 1 (pos_part t.max_attempts)
  unfolding round_trip
  sends-round_trip read t req = elim (Option-cases req.body) [
    | inl b ↦ ground (arith, sends-try_from t req (pos_part t.max_attempts - 1) 1)
    | inr (body, b) ↦ elim (Result-cases (read body)) [
      | inl (bytes, k) ↦ ground (
        arith,
        sends-try_from t (record req { body = some bytes }) (pos_part t.max_attempts - 1) 1,
      )
      | inr (e, k) ↦ ground arith
    ]
  ]

  -- A method other than GET, HEAD and OPTIONS is sent once, unless the service opted in.
  pub sends-round_trip_unsafe :
      (read : List ℕ → Result TripError (List ℕ)) (t : RetryTransport) (req : Outgoing)
      → t.retry_unsafe ≡ false
      → req.method ≢ "GET"
      → req.method ≢ "HEAD"
      → req.method ≢ "OPTIONS"
      → sends (round_trip rand next read t req).effects ≡ 1
  unfolding method_is_retryable
  sends-round_trip_unsafe read t req u g h o = rw (
      round_trip-once read t req (
        inr (
          ground (
            arith,
            eq_iff req.method "GET",
            eq_iff req.method "HEAD",
            eq_iff req.method "OPTIONS",
          ))))

-- The delay after the k-th attempt lies between `base * 2 ^ (k - 1)` and that and the base, as long
-- as the sum stays in the range of a Duration, for any generator that stays below its argument.
pub backoff_bounds :
    (rand : ℤ → ℤ) (t : RetryTransport) (base k jitter : ℕ)
    → t.backoff_base ≡ pos base
    → InRange (base * 2 ^ k + base + 1)
    → rand (pos (base + 1)) ≡ pos jitter
    → jitter < base + 1
    → (d : ℕ) × (backoff rand t (k + 1) ≡ pos d) × (base * 2 ^ k ≤ d) × (d ≤ base * 2 ^ k + base)
unfolding backoff
backoff_bounds rand t base k jitter b r j l =
    let e : k + 1 - 1 ≡ k = omega arith in
    (
      base * 2 ^ k + jitter,
      rw (b, e, add64-pos base 1 (omega arith), j, shl64-pos base k (omega arith))
          (add64-pos (base * 2 ^ k) jitter (omega arith)),
      omega arith,
      omega arith,
    )
