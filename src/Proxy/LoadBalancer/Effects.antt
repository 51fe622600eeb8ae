-- ===== src/Proxy/LoadBalancer/Effects.antt =====
-- A request from end to end: it is always answered, and what it leaves behind.
use native.Mathlib.Nat.{mod-lt}
use dealer.Base.{
  ℕ, zero, suc, ◌+◌, ◌-◌, ◌%◌, ◌<◌, ◌≡◌, ◌≢◌, refl, ◌⊎◌, inl, inr, true, false, some, arith, List,
  [], ◌∷◌, length, get_elem?, set, length-set, All, All-get_elem?, get_elem?-of_lt, Option-cases,
  Result-cases, two63, two64, String, Result, ok, ltb_ℤ, pos, add64-pos,
}
use dealer.Proxy.Origin.{OriginState, breaker_open, record_failure, record_success}
use dealer.Proxy.Origin.Breaker.{IsValid}
use dealer.Proxy.LoadBalancer.{
  RoundRobinOrigin, RoundRobinProxy, Choice, attempt, fast_fail, panics, choose, forward, carry_out,
  serve_http, with_state,
}
use dealer.Proxy.LoadBalancer.Selection.{is_open}
use dealer.Proxy.LoadBalancer.Serving.{choose-not_open, choose-cases}

-- One more failure can be counted.
abbrev pub HasRoom : RoundRobinOrigin → Type 0
HasRoom o = ltb_ℤ o.state.consecutive_failures (pos (two63 - 1)) ≡ true

-- What holds of a load balancer between two requests.
pub record IsReady (lb : RoundRobinProxy) : Type 0 where
  pub some_origin : 0 < length lb.origins
  pub valid : All (λ o. IsValid o.state) lb.origins
  pub counter : lb.next < two64

record_success-IsValid : (s : OriginState) → IsValid (record_success s)
unfolding record_success
record_success-IsValid s = record {
  failures = 0;
  counted = refl;
  in_range = omega arith;
  timed = λ _. refl;
}

record_failure-IsValid :
    (s : OriginState) (now : ℕ)
    → now ≢ 0
    → ltb_ℤ s.consecutive_failures (pos (two63 - 1)) ≡ true
    → IsValid s
    → IsValid (record_failure now s)
unfolding record_failure
record_failure-IsValid s now h room v = record {
  failures = v.failures + 1;
  counted = ground (arith, add64-pos v.failures 1);
  in_range = ground arith;
  timed = λ e. absurd (h e);
}

pub All-set {ℓ κ} :
    {A : Type ℓ} (P : A → Type κ) (xs : List A) (i : ℕ) {v : A}
    → All P xs
    → P v
    → All P (set xs i v)
All-set P [] i h p = h
All-set P (x ∷ xs) zero h p = (p, h.1)
All-set P (x ∷ xs) (suc i) h p = (h.0, All-set P xs i h.1 p)

module _ {A E : Type 0} (bad_gateway : String → A) (dial : RoundRobinOrigin → Result E A) where
  -- An answer: the 502, or the response of an origin whose breaker is not open.
  abbrev pub IsAnswer : RoundRobinProxy → ℕ → A → Type 0
  IsAnswer lb now a =
      (a ≡ bad_gateway lb.name)
      ⊎ ((i : ℕ) × (o : RoundRobinOrigin) × (get_elem? lb.origins i ≡ some o)
          × (dial o ≡ ok a)
          × (breaker_open now lb.breaker o.state ≡ false))

  forward-IsReady :
      (lb : RoundRobinProxy) (later i : ℕ)
      → later ≢ 0
      → All HasRoom lb.origins
      → IsReady lb
      → IsReady (forward bad_gateway dial lb later i).0
  unfolding forward
  forward-IsReady lb later i h room r = elim (Option-cases (get_elem? lb.origins i)) [
    | inl missing ↦ rw (missing, forward) r
    | inr (o, found) ↦ elim (Result-cases (dial o)) [
      | inl (a, answered) ↦
          rw (found, answered, forward) (replaced o (record_success-IsValid o.state))
      | inr (e, refused) ↦
          rw (found, refused, forward)
            (replaced o (
              record_failure-IsValid o.state later h (All-get_elem? HasRoom lb.origins i room found)
                (All-get_elem? (λ x. IsValid x.state) lb.origins i r.valid found)))
    ]
  ]
    where
      replaced :
          (o : RoundRobinOrigin) {s : OriginState}
          → IsValid s
          → IsReady (record lb { origins = set lb.origins i (with_state o s) })
      replaced o v = record {
        some_origin = rw (length-set lb.origins i (with_state o _)) r.some_origin;
        valid = All-set (λ x. IsValid x.state) lb.origins i r.valid v;
        counter = r.counter;
      }

  carry_out-IsReady :
      (lb : RoundRobinProxy) (later : ℕ) (c : Choice)
      → later ≢ 0
      → All HasRoom lb.origins
      → IsReady lb
      → IsReady (carry_out bad_gateway dial lb later c).0
  unfolding carry_out
  carry_out-IsReady lb later (attempt i) h room r = forward-IsReady lb later i h room r
  carry_out-IsReady lb later (fast_fail i) h room r = r
  carry_out-IsReady lb later panics h room r = r

  -- A request, whichever way it goes, keeps a load balancer ready for the next, if no count of
  -- failures is at the end of its range and no failure is timed at the zero time.
  pub serve_http-IsReady :
      (lb : RoundRobinProxy) (now later : ℕ)
      → later ≢ 0
      → All HasRoom lb.origins
      → IsReady lb
      → IsReady (serve_http bad_gateway dial lb now later).0
  unfolding serve_http
  serve_http-IsReady lb now later h room r =
      carry_out-IsReady (record lb { next = (lb.next + 1) % two64 }) later
        (choose (record lb { next = (lb.next + 1) % two64 }) now ((lb.next + 1) % two64)) h room
        (record { some_origin = r.some_origin; valid = r.valid; counter = mod-lt _ (omega arith) })

  attempt-IsAnswer :
      (lb : RoundRobinProxy) (now later i : ℕ)
      → i < length lb.origins
      → is_open lb now i ≡ false
      → (a : A) × ((forward bad_gateway dial lb later i).1 ≡ some a) × IsAnswer lb now a
  unfolding forward
  attempt-IsAnswer lb now later i h closed =
      let (o, found) = get_elem?-of_lt lb.origins i h in
      elim (Result-cases (dial o)) [
        | inl (a, answered) ↦
            (a, rw (found, answered, forward), inr (i, o, found, answered, ground arith))
        | inr (e, refused) ↦ (bad_gateway lb.name, rw (found, refused, forward), inl refl)
      ]

  -- A load balancer that is ready answers every request: with the response of one of its origins,
  -- whose breaker was not open, or with the 502.
  pub serve_http-IsAnswer :
      (lb : RoundRobinProxy) (now later : ℕ)
      → IsReady lb
      → (a : A) × ((serve_http bad_gateway dial lb now later).1 ≡ some a) × IsAnswer lb now a
  unfolding serve_http carry_out
  serve_http-IsAnswer lb now later r =
      let start : ℕ = (lb.next + 1) % two64 in
      let started : RoundRobinProxy = record lb { next = start } in
      elim (choose-cases started now start r.some_origin) [
        | inl (i, h, e) ↦
            rw (e, carry_out)
              (attempt-IsAnswer started now later i h
                (choose-not_open started now start i r.some_origin r.valid e))
        | inr (i, e) ↦ (bad_gateway lb.name, rw (e, carry_out), inl refl)
      ]
