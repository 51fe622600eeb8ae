-- ===== src/Config/Parse/Validation.antt =====
-- Which configurations gateway/internal/config/parse.go accepts, and what it says of the others.
use dealer.Base.{
  ℕ, ◌+◌, ◌≡◌, ◌≢◌, refl, ◌↔◌, ◌⊎◌, inl, inr, Bool, true, false, Option, none, some, List, [], ◌∷◌,
  String, is_empty, eq_iff, arith, All, any, ℤ, Result, ok, err, ◌>>=◌, >>=-eq-ok, length, ap, suc,
  ◌++◌, ◌∙◌, subst, Result-cases, Option-cases,
}
use dealer.Config.Types.{Config, Service, HealthCheckConfig}
use dealer.Config.HostName.{host_pattern_matches}
use dealer.Config.Parse.{ConfigError, guard, has_bad_interval, check_service, check_services, parse}

guarded : (bad : Bool) (e : ConfigError) → guard bad e ≡ ok tt → bad ≡ false
guarded true e h = cc
guarded false e h = refl

no_empty_iff : (us : List String) → (any is_empty us ≡ false) ↔ All (λ u. u ≢ "") us
no_empty_iff [] = ((λ h. tt), λ h. refl)
no_empty_iff (u ∷ us) = (
  (λ h. (ground (arith, eq_iff u ""), (no_empty_iff us).0 (ground arith))),
  (λ h. let rest = (no_empty_iff us).1 h.1 in ground (arith, eq_iff u "")),
)

module _ (parse_duration : String → Option ℤ) where
  -- A health check's interval is empty or a duration.
  abbrev pub HasInterval : Option HealthCheckConfig → Type 0
  HasInterval none = Unit
  HasInterval (some h) = (h.interval ≡ "") ⊎ ((d : ℤ) × (parse_duration h.interval ≡ some d))

  interval_iff :
      (h : Option HealthCheckConfig) → (has_bad_interval parse_duration h ≡ false) ↔ HasInterval h
  interval_iff none = ((λ _. tt), λ _. refl)
  interval_iff (some h) = (
    (λ k. elim (Option-cases (parse_duration h.interval)) [
      | inl bad ↦ inl (ground (arith, eq_iff h.interval ""))
      | inr (d, good) ↦ inr (d, good)
    ]),
    (λ k. ground (arith, eq_iff h.interval "")),
  )

module _ {F : Type 0} (parse_duration : String → Option ℤ) where
  -- What the documentation asks of a service.
  pub record IsWellFormed (svc : Service F) : Type 0 where
    pub named : svc.name ≢ ""
    pub at_path : svc.path ≢ ""
    pub host_name : (svc.host ≡ "") ⊎ (host_pattern_matches svc.host ≡ true)
    pub one_kind :
        ((svc.origin_url ≢ "") × (svc.origin_urls ≡ []))
        ⊎ ((svc.origin_url ≡ "") × (svc.origin_urls ≢ []))
    pub no_empty_origin : All (λ u. u ≢ "") svc.origin_urls
    pub interval : HasInterval parse_duration svc.health_check

  -- A service passes the checks exactly when it is well formed.
  check_service-ok_iff :
      (i : ℕ) (svc : Service F) → (check_service parse_duration i svc ≡ ok tt) ↔ IsWellFormed svc
  unfolding check_service
  check_service-ok_iff i svc = (
    (λ h. record {
      named = ground (arith, eq_iff svc.name "");
      at_path = ground (arith, eq_iff svc.path "");
      host_name = ground (arith, eq_iff svc.host "");
      one_kind = ground (arith, eq_iff svc.origin_url "");
      no_empty_origin = (no_empty_iff svc.origin_urls).0 (ground arith);
      interval = (interval_iff parse_duration svc.health_check).0 (ground arith);
    }),
    (λ w. ground (
      arith,
      eq_iff svc.name "",
      eq_iff svc.path "",
      eq_iff svc.host "",
      eq_iff svc.origin_url "",
      no_empty_iff svc.origin_urls,
      interval_iff parse_duration svc.health_check,
    )),
  )

  check_services-ok_iff :
      (i : ℕ) (svcs : List (Service F))
      → (check_services parse_duration i svcs ≡ ok tt) ↔ All IsWellFormed svcs
  unfolding check_services
  check_services-ok_iff i [] = ((λ _. tt), λ _. refl)
  check_services-ok_iff i (svc ∷ svcs) = (
    (λ h.
        let (_, one, rest) = >>=-eq-ok (check_service parse_duration i svc) _ h in
        (
          (check_service-ok_iff i svc).0 (ground arith),
          (check_services-ok_iff (i + 1) svcs).0 rest,
        )),
    (λ w. rw ((check_service-ok_iff i svc).1 w.0) ((check_services-ok_iff (i + 1) svcs).1 w.1)),
  )

  -- A configuration is accepted exactly when it is decoded and each of its services is well
  -- formed, and then it is returned as decoded.
  pub parse-ok_iff :
      {Data : Type 0} (unmarshal : Data → Result String (Config F)) (contents : Data)
      (cfg : Config F)
      → (parse parse_duration unmarshal contents ≡ ok cfg)
        ↔ ((unmarshal contents ≡ ok cfg) × All IsWellFormed cfg.services)
  unfolding parse
  parse-ok_iff unmarshal contents cfg = elim (Result-cases (unmarshal contents)) [
    | inl (found, e) ↦ (
      (λ h.
          let (_, fine, same) =
            >>=-eq-ok (check_services parse_duration 0 found.services) (λ _. ok found)
              (rw (e, parse) at h) in
          let eq : found ≡ cfg = cc in
          (
            e ∙ ap ok eq,
            subst (λ c. All IsWellFormed c.services) eq
                ((check_services-ok_iff 0 found.services).0 (ground arith)),
          )),
      (λ (h, w). rw (h, parse) (rw ((check_services-ok_iff 0 cfg.services).1 w))),
    )
    | inr (bad, e) ↦ ((λ h. ground arith), λ h. ground arith)
  ]

  -- A refusal is that of the first service that does not pass, with its position: the services
  -- before it are well formed.
  pub check_services-err :
      (i : ℕ) (svcs : List (Service F)) {e : ConfigError}
      → check_services parse_duration i svcs ≡ err e
      → (before : List (Service F)) × (svc : Service F) × (later : List (Service F)) × (svcs
          ≡ before ++ svc ∷ later)
        × All IsWellFormed before
        × (check_service parse_duration (i + length before) svc ≡ err e)
  unfolding check_services
  check_services-err i [] h = cc
  check_services-err i (svc ∷ svcs) {e} h =
      elim (Result-cases (check_service parse_duration i svc)) [
        | inl (t, good) ↦
            let (before, bad, later, split, fine, reason) =
              check_services-err (i + 1) svcs (rw (good, ◌>>=◌) at h) in
            let e' : i + suc (length before) ≡ i + 1 + length before = omega arith in
            (
              svc ∷ before,
              bad,
              later,
              ap (λ l. svc ∷ l) split,
              ((check_service-ok_iff i svc).0 (ground arith), fine),
              rw e' reason,
            )
        | inr (reason, bad) ↦
            let e' : i + 0 ≡ i = omega arith in
            ([], svc, svcs, refl, tt, rw (e', bad) (ground arith))
      ]
