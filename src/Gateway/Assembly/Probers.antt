-- ===== src/Gateway/Assembly/Probers.antt =====
-- When a prober that buildMux of gateway/gateway.go made can be started.
use dealer.Base.{
  ℕ, ◌≡◌, ◌≢◌, ◌↔◌, ap, ◌∙◌, true, false, none, some, Option, Bool, List, String, is_empty, eq_iff,
  arith, ℤ, pos, leb_ℤ, Result, ok, >>=-eq-ok, Bool-cases, Option-cases, inl, inr, Event,
  with_ticker-none_iff, if◌then◌else◌,
}
use dealer.Config.Parse.{has_bad_interval}
use dealer.Config.Types.{HealthCheckConfig}
use dealer.Gateway.Options.{ResolvedOptions, Options, resolve_options}
use dealer.Gateway.Options.Defaults.{IsPositive, resolve_options-IsSane}
use dealer.Gateway.Assembly.{ProberSettings, BuildError, interval_of, prober_of}
use dealer.Plugin.Values.{Float}
use dealer.Proxy.Health.{start}
use dealer.Proxy.LoadBalancer.{RoundRobinOrigin, Url}

-- The service sets an interval that parses and is not positive.
abbrev pub HasBadInterval : (String → Option ℤ) → HealthCheckConfig → Type 0
HasBadInterval parse_duration check =
    (check.interval ≢ "")
    × ((d : ℤ) × (parse_duration check.interval ≡ some d) × (leb_ℤ d (pos 0) ≡ true))

module _ (fl : Float) (getenv : String → String) (shared : Bool) (parse_url : String → Option Url)
    (parse_duration : String → Option ℤ) where
  abbrev interval : ResolvedOptions → String → String → Result BuildError ℤ
  interval = interval_of fl getenv shared parse_url parse_duration

  interval-bad_iff :
      (opts : ResolvedOptions) (service : String) (check : HealthCheckConfig) (d : ℤ)
      → IsPositive opts.health_check_interval
      → interval opts service check.interval ≡ ok d
      → (leb_ℤ d (pos 0) ≡ true) ↔ HasBadInterval parse_duration check
  interval-bad_iff opts service check d positive h = elim (Bool-cases (is_empty check.interval)) [
    | inl blank ↦
        let same : d ≡ opts.health_check_interval = ground arith in
        (
          λ bad. absurd (ground arith),
          λ found. absurd (found.0 ((eq_iff check.interval "").0 blank)),
        )
    | inr given ↦ elim (Option-cases (parse_duration check.interval)) [
      | inl fails ↦ absurd (ground arith)
      | inr (e, parses) ↦
          let same : e ≡ d = ground arith in
          (
            λ bad. (ground (arith, eq_iff check.interval ""), (d, ground arith, bad)),
            λ found. ground (arith, found.1.1, found.1.2),
          )
    ]
  ]

  ok-prober_of :
      (opts : ResolvedOptions) (service : String) (check : HealthCheckConfig) (p : ProberSettings)
      → prober_of fl getenv shared parse_url parse_duration opts service (some check) ≡ ok (some p)
      → interval opts service check.interval ≡ ok p.interval
  unfolding prober_of
  ok-prober_of opts service check p h =
      let (d, found, rest) = >>=-eq-ok (interval opts service check.interval) _ h in
      elim (Bool-cases
        (is_empty (if is_empty check.path then opts.health_check_path else check.path))) [
          | inl blank ↦ absurd (ground arith)
          | inr given ↦ let same : d ≡ p.interval = ground arith in found ∙ ap ok same
        ]

  accepted :
      (check : HealthCheckConfig)
      → HasBadInterval parse_duration check
      → has_bad_interval parse_duration (some check) ≡ false
  accepted check (given, (d, parses, bad)) = rw parses (ground arith)

  -- Whatever the options, starting the prober of a service panics exactly if the service sets an
  -- interval that parses and is not positive; such an interval passes the check of the configuration.
  pub prober_of-panics_iff :
      (o : Options) (service : String) (check : HealthCheckConfig) (p : ProberSettings)
      (get : String → Option ℕ) (events : List (Event (String → Option ℕ)))
      (origins : List RoundRobinOrigin)
      → prober_of fl getenv shared parse_url parse_duration (resolve_options o) service (some check)
        ≡ ok (some p)
      → ((start (record { path = p.path; interval = p.interval }) get events origins ≡ none)
          ↔ HasBadInterval parse_duration check)
        × (HasBadInterval parse_duration check
            → has_bad_interval parse_duration (some check) ≡ false)
  unfolding start
  prober_of-panics_iff o service check p get events origins made =
      let opts = resolve_options o in
      let positive = (resolve_options-IsSane o).0.health_check_interval in
      let bad =
        interval-bad_iff opts service check p.interval positive
          (ok-prober_of opts service check p made) in
      let panics = with_ticker-none_iff p.interval _ in
      ((λ h. bad.0 (panics.0 h), λ h. panics.1 (bad.1 h)), accepted check)
