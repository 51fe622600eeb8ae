-- ===== src/Proxy/Health/Targets.antt =====
-- Active probing of gateway/internal/proxy/health.go and the load balancer of loadbalancer.go, which
-- share the states of the origins.
use mathlib.Core.List.{append_assoc}
use mathlib.Core.Bool.{false≢true}
use mathlib.Core.Option
use dealer.Base.{
  ℕ, suc, ◌+◌, ◌≤◌, ◌≡◌, refl, sym, ap, ◌∙◌, subst, inl, inr, Bool, true, false, not, Option, none,
  some, List, [], ◌∷◌, ◌++◌, String, arith, length, get_elem?, set, two64, Option-cases, Bool-cases,
}
use dealer.Proxy.Health.{Prober, probe, probe_once, probe_each, mark_at}
use dealer.Proxy.Health.Probing.{probe_once-get_elem?}
use dealer.Proxy.LoadBalancer.{
  RoundRobinProxy, RoundRobinOrigin, targets_from, probe_targets, attempt, choose, with_state,
}
use dealer.Proxy.LoadBalancer.Selection.{can_serve}
use dealer.Proxy.LoadBalancer.Serving.{choose-available}
use dealer.Proxy.Origin.{available, set_forced_down}

module _ (get : String → Option ℕ) (p : Prober) where
  get_elem?-length :
      (done : List RoundRobinOrigin) (o : RoundRobinOrigin) (os : List RoundRobinOrigin)
      → get_elem? (done ++ o ∷ os) (length done) ≡ some o
  get_elem?-length [] o os = refl
  get_elem?-length (d ∷ done) o os = get_elem?-length done o os

  set-length :
      (done : List RoundRobinOrigin) (o o' : RoundRobinOrigin) (os : List RoundRobinOrigin)
      → set (done ++ o ∷ os) (length done) o' ≡ (done ++ o' ∷ []) ++ os
  set-length [] o o' os = refl
  set-length (d ∷ done) o o' os = ap (λ x. d ∷ x) (set-length done o o' os)

  length-snoc :
      (done : List RoundRobinOrigin) (o : RoundRobinOrigin)
      → length (done ++ o ∷ []) ≡ suc (length done)
  length-snoc [] o = refl
  length-snoc (d ∷ done) o = ap suc (length-snoc done o)

  probe_each-from :
      (done os : List RoundRobinOrigin)
      → probe_each get p (targets_from (length done) os) (done ++ os) ≡ done ++ probe_once get p os
  unfolding probe_each probe_once targets_from
  probe_each-from done [] = refl
  probe_each-from done (o ∷ os) =
      let o' = with_state o (set_forced_down (not (probe get p o.url)) o.state) in
      let later = targets_from (suc (length done)) os in
      ap
        (λ found.
          probe_each get p later
            (mark_at get (length done) (probe get p o.url) found (done ++ o ∷ os)))
        (get_elem?-length done o os)
      ∙ ap (probe_each get p later) (set-length done o o' os)
      ∙ subst
          (λ n.
            probe_each get p (targets_from n os) ((done ++ o' ∷ []) ++ os)
            ≡ (done ++ o' ∷ []) ++ probe_once get p os)
          (length-snoc done o') (probe_each-from (done ++ o' ∷ []) os)
      ∙ append_assoc done (o' ∷ []) (probe_once get p os)

  -- The pointers of the targets reach the load balancer's own states, each once.
  pub probe_each-targets :
      (lb : RoundRobinProxy)
      → probe_each get p (probe_targets lb) lb.origins ≡ probe_once get p lb.origins
  unfolding probe_targets
  probe_each-targets lb = probe_each-from [] lb.origins

  -- The load balancer after a round of probes.
  abbrev pub probed : RoundRobinProxy → RoundRobinProxy
  probed lb = record lb { origins = probe_each get p (probe_targets lb) lb.origins }

  abbrev marked : RoundRobinOrigin → RoundRobinOrigin
  marked o = with_state o (set_forced_down (not (probe get p o.url)) o.state)

  get_elem?-probed :
      (lb : RoundRobinProxy) (i : ℕ)
      → get_elem? (probed lb).origins i ≡ Option.map marked (get_elem? lb.origins i)
  unfolding set_forced_down
  get_elem?-probed lb i =
      ap (λ os. get_elem? os i) (probe_each-targets lb) ∙ probe_once-get_elem? get p lb.origins i

  -- Whether an origin of the load balancer is there and available.
  abbrev serves : RoundRobinProxy → ℕ → Option RoundRobinOrigin → Bool
  serves lb now found = elim found [
    | none ↦ false
    | some o ↦ available now lb.cooldown lb.breaker o.state
  ]

  can_serve-probed :
      (lb : RoundRobinProxy) (now i : ℕ) {found : Option RoundRobinOrigin}
      → get_elem? lb.origins i ≡ found
      → can_serve (probed lb) now i ≡ serves lb now (Option.map marked found)
  can_serve-probed lb now i e =
      ap (serves lb now) (get_elem?-probed lb i ∙ ap (Option.map marked) e)

  length-probe_once : (os : List RoundRobinOrigin) → length (probe_once get p os) ≡ length os
  unfolding probe_once
  length-probe_once [] = refl
  length-probe_once (o ∷ os) = ap suc (length-probe_once os)

  -- What is available after the round has passed its probe.
  up_only :
      (lb : RoundRobinProxy) (now : ℕ) (o : RoundRobinOrigin)
      → serves lb now (some (marked o)) ≡ true
      → probe get p o.url ≡ true
  unfolding available set_forced_down
  up_only lb now o h = elim (Bool-cases (probe get p o.url)) [
    | inl up ↦ up
    | inr down ↦ ground arith
  ]

  healthy_serves :
      (lb : RoundRobinProxy) (now : ℕ) (o : RoundRobinOrigin)
      → probe get p o.url ≡ true
      → o.state.last_failure_at ≡ 0
      → serves lb now (some (marked o)) ≡ true
  unfolding available set_forced_down
  healthy_serves lb now o up healthy = rw (up, healthy) refl

  passed :
      (lb : RoundRobinProxy) (now i : ℕ)
      → can_serve (probed lb) now i ≡ true
      → (o : RoundRobinOrigin) × (get_elem? lb.origins i ≡ some o) × (probe get p o.url ≡ true)
  passed lb now i up = elim (Option-cases (get_elem? lb.origins i)) [
    | inl gone ↦ absurd (false≢true (sym (can_serve-probed lb now i gone) ∙ up))
    | inr (o, found) ↦ (o, found, up_only lb now o (sym (can_serve-probed lb now i found) ∙ up))
  ]

  -- After a round of probes, and as long as the counter does not wrap around within the rounds, a
  -- request goes to an origin that passed its probe, if one of these has no failure since its last
  -- success.
  pub choose-probed :
      (lb : RoundRobinProxy) (now start j : ℕ) (o : RoundRobinOrigin)
      → start + length lb.origins ≤ two64
      → get_elem? lb.origins j ≡ some o
      → probe get p o.url ≡ true
      → o.state.last_failure_at ≡ 0
      → (i : ℕ) × (o' : RoundRobinOrigin) × (choose (probed lb) now start ≡ attempt i)
        × (get_elem? lb.origins i ≡ some o')
        × (probe get p o'.url ≡ true)
  choose-probed lb now start j o w found up healthy =
      let (i, serves, chosen) =
        choose-available (probed lb) now start j
          (subst (λ n. start + n ≤ two64)
            (sym (ap length (probe_each-targets lb) ∙ length-probe_once lb.origins)) w)
          (can_serve-probed lb now j found ∙ healthy_serves lb now o up healthy) in
      let (o', there, passes) = passed lb now i serves in (i, o', chosen, there, passes)
