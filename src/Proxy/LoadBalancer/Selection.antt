-- ===== src/Proxy/LoadBalancer/Selection.antt =====
-- Which origin the load balancer attempts.
use dealer.Base.{
  ℕ, zero, suc, ◌+◌, ◌-◌, ◌%◌, ◌≤◌, ◌<◌, ◌≡◌, refl, Bool, true, false, none, some, arith, length,
  get_elem?, get_elem?-of_lt, two64, if◌then◌else◌, Bool-cases, ◌⊎◌, inl, inr,
}
use native.Mathlib.Nat.{mod-lt, mod-eq_of_lt, mod-add-mod, add-mod_right}
use native.Mathlib.Decide.{dec_lt}
use dealer.Proxy.Origin.{available, breaker_open}
use dealer.Proxy.LoadBalancer.{
  RoundRobinProxy, attempt, fast_fail, turn, choose_fallback, choose_from,
}

-- The availability of the origin at an index; an index out of range has none.
abbrev pub can_serve : RoundRobinProxy → ℕ → ℕ → Bool
can_serve lb now i = elim (get_elem? lb.origins i) [
  | none ↦ false
  | some o ↦ available now lb.cooldown lb.breaker o.state
]

abbrev pub is_open : RoundRobinProxy → ℕ → ℕ → Bool
is_open lb now i = elim (get_elem? lb.origins i) [
  | none ↦ false
  | some o ↦ breaker_open now lb.breaker o.state
]

module _ (lb : RoundRobinProxy) (now start : ℕ) (some_origin : 0 < length lb.origins) where
  in_bounds : (i : ℕ) → turn (length lb.origins) start i < length lb.origins
  in_bounds i = mod-lt _ some_origin

  choose_from_step :
      (rounds i : ℕ)
      → choose_from lb now start (suc rounds) i ≡ (
          if can_serve lb now (turn (length lb.origins) start i)
          then attempt (turn (length lb.origins) start i)
          else choose_from lb now start rounds (i + 1))
  unfolding choose_from
  choose_from_step rounds i =
      let (o, e) = get_elem?-of_lt lb.origins (turn (length lb.origins) start i) (in_bounds i) in
      ground arith

  -- The round `k` is the first at which an origin can serve.
  pub choose_from-first :
      (rounds i k : ℕ)
      → k < rounds
      → can_serve lb now (turn (length lb.origins) start (i + k)) ≡ true
      → ((j : ℕ) → j < k → can_serve lb now (turn (length lb.origins) start (i + j)) ≡ false)
      → choose_from lb now start rounds i ≡ attempt (turn (length lb.origins) start (i + k))
  choose_from-first zero i k h up down = absurd (omega arith)
  choose_from-first (suc rounds) i zero h up down =
      let e : i + 0 ≡ i = omega arith in rw e (rw (choose_from_step rounds i) (rw (rw e at up)))
  choose_from-first (suc rounds) i (suc k) h up down =
      let e : i + 0 ≡ i = omega arith in
      let e' : i + suc k ≡ i + 1 + k = omega arith in
      rw (choose_from_step rounds i, rw e at (down 0 (omega arith)), e')
        (choose_from-first rounds (i + 1) k (omega arith) (rw e' at up) (λ j l. shifted j l))
    where
      shifted :
          (j : ℕ) → j < k → can_serve lb now (turn (length lb.origins) start (i + 1 + j)) ≡ false
      shifted j l =
          let e : i + suc j ≡ i + 1 + j = omega arith in rw e at (down (suc j) (omega arith))

  pub choose_from-none :
      (rounds i : ℕ)
      → ((j : ℕ) → j < rounds → can_serve lb now (turn (length lb.origins) start (i + j)) ≡ false)
      → choose_from lb now start rounds i ≡ choose_fallback lb now start
  unfolding choose_from
  choose_from-none zero i down = refl
  choose_from-none (suc rounds) i down =
      let e : i + 0 ≡ i = omega arith in
      rw (choose_from_step rounds i, rw e at (down 0 (omega arith)))
        (choose_from-none rounds (i + 1) (λ j l. shifted j l))
    where
      shifted :
          (j : ℕ)
          → j < rounds
          → can_serve lb now (turn (length lb.origins) start (i + 1 + j)) ≡ false
      shifted j l =
          let e : i + suc j ≡ i + 1 + j = omega arith in rw e at (down (suc j) (omega arith))

  pub choose_fallback_lem : choose_fallback lb now start ≡ (
      if is_open lb now (start % length lb.origins)
      then fast_fail (start % length lb.origins)
      else attempt (start % length lb.origins))
  unfolding choose_fallback
  choose_fallback_lem =
      let (o, e) = get_elem?-of_lt lb.origins (start % length lb.origins) (mod-lt _ some_origin) in
      ground arith

-- Without a wrap of the counter, the rounds visit every origin.
pub covers : (n start j : ℕ) → j < n → start + n ≤ two64 → (k : ℕ) × (k < n) × (turn n start k ≡ j)
covers n start j h w = elim (dec_lt j (start % n)) [
  | yes less ↦
      let s : start % n < n = mod-lt start (omega arith) in
      let e : start % n + (j + n - start % n) ≡ j + n = omega arith in
      let small : (start + (j + n - start % n)) % two64 ≡ start + (j + n - start % n) =
        mod-eq_of_lt (omega arith) in
      (
        j + n - start % n,
        omega arith,
        rw (small, ← mod-add-mod start n (j + n - start % n), e, add-mod_right j n)
            (mod-eq_of_lt h),
      )
  | no more ↦
      let e : start % n + (j - start % n) ≡ j = omega arith in
      let small : (start + (j - start % n)) % two64 ≡ start + (j - start % n) =
        mod-eq_of_lt (omega arith) in
      (
        j - start % n,
        omega arith,
        rw (small, ← mod-add-mod start n (j - start % n), e) (mod-eq_of_lt h),
      )
]

module _ (lb : RoundRobinProxy) (now start : ℕ) (some_origin : 0 < length lb.origins) where
  -- The loop ends in one of two ways.
  pub choose_from-cases :
      (rounds i : ℕ)
      → ((k : ℕ) × (can_serve lb now k ≡ true) × (choose_from lb now start rounds i ≡ attempt k))
        ⊎ (((j : ℕ)
              → j < rounds
              → can_serve lb now (turn (length lb.origins) start (i + j)) ≡ false)
            × (choose_from lb now start rounds i ≡ choose_fallback lb now start))
  unfolding choose_from
  choose_from-cases zero i = inr ((λ j h. absurd (omega arith)), refl)
  choose_from-cases (suc rounds) i =
      elim (Bool-cases (can_serve lb now (turn (length lb.origins) start i))) [
        | inl up ↦ inl (
          turn (length lb.origins) start i,
          up,
          rw (choose_from_step lb now start some_origin rounds i, up),
        )
        | inr down ↦ elim (choose_from-cases rounds (i + 1)) [
          | inl (k, up, e) ↦
              inl (k, up, rw (choose_from_step lb now start some_origin rounds i, down) e)
          | inr (all_down, e) ↦ inr (
            (λ j h. earlier rounds i down all_down j h),
            rw (choose_from_step lb now start some_origin rounds i, down) e,
          )
        ]
      ]
    where
      earlier :
          (rounds i : ℕ)
          → can_serve lb now (turn (length lb.origins) start i) ≡ false
          → ((j : ℕ)
              → j < rounds
              → can_serve lb now (turn (length lb.origins) start (i + 1 + j)) ≡ false)
          → (j : ℕ) → j < suc rounds
          → can_serve lb now (turn (length lb.origins) start (i + j)) ≡ false
      earlier rounds i down all_down zero h = let e : i + 0 ≡ i = omega arith in rw e down
      earlier rounds i down all_down (suc j) h =
          let e : i + suc j ≡ i + 1 + j = omega arith in rw e (all_down j (omega arith))
