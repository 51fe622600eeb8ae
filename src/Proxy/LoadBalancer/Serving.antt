-- ===== src/Proxy/LoadBalancer/Serving.antt =====
-- What a request does to the load balancer: the origin it attempts, the answer, and the states.
use native.Mathlib.Nat.{mod-lt, zero-add}
use mathlib.Core.Bool.{false≢true}
use dealer.Base.{
  ℕ, ◌+◌, ◌%◌, ◌≤◌, ◌<◌, ◌≡◌, refl, sym, ◌∙◌, subst, ◌↔◌, ◌⊎◌, inl, inr, Bool, true, false, arith,
  length, get_elem?, All, All-get_elem?, lt_of_get_elem?, Bool-cases, two64, if◌then◌else◌,
  Option-cases,
}
use dealer.Proxy.Origin.Breaker.{IsValid, available→not_breaker_open}
use dealer.Proxy.LoadBalancer.{RoundRobinProxy, attempt, fast_fail, turn, choose}
use dealer.Proxy.LoadBalancer.Selection.{
  can_serve, is_open, covers, choose_from-cases, choose_from-first, choose_from-none,
  choose_fallback_lem,
}

refused :
    (b : Bool) {f i : ℕ}
    → (if b then fast_fail f else attempt f) ≡ fast_fail i
    → (b ≡ true) × (f ≡ i)
refused true e = (refl, cc)
refused false e = cc

attempted :
    (b : Bool) {f i : ℕ}
    → (if b then fast_fail f else attempt f) ≡ attempt i
    → (b ≡ false) × (f ≡ i)
attempted true e = cc
attempted false e = (refl, cc)

can_serve-lt :
    (lb : RoundRobinProxy) (now i : ℕ) → can_serve lb now i ≡ true → i < length lb.origins
can_serve-lt lb now i up = elim (Option-cases (get_elem? lb.origins i)) [
  | inl missing ↦ ground arith
  | inr (o, found) ↦ lt_of_get_elem? lb.origins i found
]

can_serve→not_open :
    (lb : RoundRobinProxy) (now i : ℕ)
    → All (λ o. IsValid o.state) lb.origins
    → can_serve lb now i ≡ true
    → is_open lb now i ≡ false
can_serve→not_open lb now i v up = elim (Option-cases (get_elem? lb.origins i)) [
  | inl missing ↦ ground arith
  | inr (o, found) ↦ ground (
    arith,
    available→not_breaker_open o.state now lb.cooldown lb.breaker
        (All-get_elem? (λ x. IsValid x.state) lb.origins i v found),
  )
]

module _ (lb : RoundRobinProxy) (now start : ℕ) where
  -- The choice is the first origin, in the order of the rounds, that is available.
  pub choose-first :
      (k : ℕ)
      → k < length lb.origins
      → can_serve lb now (turn (length lb.origins) start k) ≡ true
      → ((j : ℕ) → j < k → can_serve lb now (turn (length lb.origins) start j) ≡ false)
      → choose lb now start ≡ attempt (turn (length lb.origins) start k)
  unfolding choose
  choose-first k h up down = simp zero-add at (
      choose_from-first lb now start (omega arith) (length lb.origins) 0 k h (simp zero-add up)
        (λ j l. simp zero-add (down j l)))

  -- If some origin is available, one that is available is attempted, as long as the counter does
  -- not wrap around within the rounds.
  pub choose-available :
      (j : ℕ)
      → start + length lb.origins ≤ two64
      → can_serve lb now j ≡ true
      → (i : ℕ) × (can_serve lb now i ≡ true) × (choose lb now start ≡ attempt i)
  unfolding choose
  choose-available j w up =
      let h = can_serve-lt lb now j up in
      elim (choose_from-cases lb now start (omega arith) (length lb.origins) 0) [
        | inl found ↦ found
        | inr (down, _) ↦
            let (k, l, e) = covers (length lb.origins) start j h w in
            absurd (
              false≢true (
                sym (subst (λ t. can_serve lb now t ≡ false) e (simp zero-add at (down k l))) ∙ up))
      ]

  -- A request to one origin or more is refused with no attempt exactly when no origin is available
  -- and the breaker of the origin that it would fall back on is open, as long as the counter does
  -- not wrap around within the rounds.
  pub choose-fast_fail_iff :
      (i : ℕ)
      → 0 < length lb.origins
      → start + length lb.origins ≤ two64
      → (choose lb now start ≡ fast_fail i) ↔ (
          ((j : ℕ) → can_serve lb now j ≡ false)
          × (is_open lb now i ≡ true)
          × (i ≡ start % length lb.origins))
  unfolding choose
  choose-fast_fail_iff i h w = (
    (λ e. elim (choose_from-cases lb now start h (length lb.origins) 0) [
      | inl (k, _, e') ↦ cc
      | inr (down, e') ↦
          let (opened, same) =
            refused (is_open lb now (start % length lb.origins))
              (sym (choose_fallback_lem lb now start h) ∙ sym e' ∙ e) in
          (nowhere down, subst (λ t. is_open lb now t ≡ true) same opened, sym same)
    ]),
    (λ (down, opened, at_start).
        choose_from-none lb now start h (length lb.origins) 0 (λ j l. down _)
        ∙ choose_fallback_lem lb now start h
        ∙ rw (subst (λ t. is_open lb now t ≡ true) at_start opened, at_start)),
  )
    where
      nowhere :
          ((j : ℕ)
            → j < length lb.origins
            → can_serve lb now (turn (length lb.origins) start (0 + j)) ≡ false)
          → (j : ℕ) → can_serve lb now j ≡ false
      nowhere down j = elim (Bool-cases (can_serve lb now j)) [
        | inl up ↦
            let (k, l, e) = covers (length lb.origins) start j (can_serve-lt lb now j up) w in
            subst (λ t. can_serve lb now t ≡ false) e (simp zero-add at (down k l))
        | inr off ↦ off
      ]

  -- With one origin or more, all in valid states, no attempt is made at an origin whose breaker is
  -- open, not even as a last resort.
  pub choose-not_open :
      (i : ℕ)
      → 0 < length lb.origins
      → All (λ o. IsValid o.state) lb.origins
      → choose lb now start ≡ attempt i
      → is_open lb now i ≡ false
  unfolding choose
  choose-not_open i h v e = elim (choose_from-cases lb now start h (length lb.origins) 0) [
    | inl (k, up, e') ↦
        let same : k ≡ i = cc in
        subst (λ t. is_open lb now t ≡ false) same (can_serve→not_open lb now k v up)
    | inr (down, e') ↦
        let (closed, same) =
          attempted (is_open lb now (start % length lb.origins))
            (sym (choose_fallback_lem lb now start h) ∙ sym e' ∙ e) in
        subst (λ t. is_open lb now t ≡ false) same closed
  ]

  -- With an origin there is no panic.
  pub choose-cases :
      0 < length lb.origins
      → ((i : ℕ) × (i < length lb.origins) × (choose lb now start ≡ attempt i))
        ⊎ ((i : ℕ) × (choose lb now start ≡ fast_fail i))
  unfolding choose
  choose-cases h = elim (choose_from-cases lb now start h (length lb.origins) 0) [
    | inl (k, up, e) ↦ inl (k, can_serve-lt lb now k up, e)
    | inr (_, e) ↦ elim (Bool-cases (is_open lb now (start % length lb.origins))) [
      | inl opened ↦
          inr (start % length lb.origins, e ∙ choose_fallback_lem lb now start h ∙ rw opened)
      | inr closed ↦ inl (
        start % length lb.origins,
        mod-lt start h,
        e ∙ choose_fallback_lem lb now start h ∙ rw closed,
      )
    ]
  ]
