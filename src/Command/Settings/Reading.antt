-- ===== src/Command/Settings/Reading.antt =====
-- What cmd/dealer/main.go has read when it builds the gateway.
use dealer.Base.{
  subst, ◌≡◌, ◌≢◌, ◌⊎◌, inl, inr, ◌↔◌, refl, ap, sym, false, Option, none, some, String, is_empty,
  eq_iff, arith, ℤ, pos, Result, ok, ◌>>=◌, >>=-eq-ok, Bool-cases,
}
use dealer.Command.Environment.{
  Environment, getenv, env_or, parse_int, parse_bool, setting, parsed, Fatal,
}
use dealer.Command.Settings.{
  Settings, read_settings, build_tls_config, listen_address, default_tls_reload_interval,
}
use dealer.Gateway.Options.{
  default_poll_interval, default_origin_timeout, default_max_request_body_bytes,
  default_unhealthy_cooldown, default_health_check_interval, default_health_check_timeout,
  default_retry_max_attempts, default_retry_backoff_base, default_breaker_cooldown,
}
use dealer.Tlscert as Tlscert
use dealer.Tlscert.{Files}

-- A variable that is not set or empty gives the default, any other is parsed.
abbrev pub Gives {ℓ} : {A : Type ℓ} → Environment → String → (String → Option A) → A → A → Type ℓ
Gives env key parse fallback v =
    ((getenv env key ≡ "") × (v ≡ fallback))
    ⊎ ((getenv env key ≢ "") × (parse (getenv env key) ≡ some v))

pub ok_value {ℓ} : {A : Type ℓ} (a b : A) → ◌≡◌ {A = Result Fatal A} (ok a) (ok b) → b ≡ a
ok_value a b h = cc

ok-parsed {ℓ} :
    {A : Type ℓ} (key raw : String) (o : Option A) (v : A) → parsed key raw o ≡ ok v → o ≡ some v
ok-parsed key raw none v h = cc
ok-parsed key raw (some w) v h = cc

setting-Gives {ℓ} :
    {A : Type ℓ} (env : Environment) (key : String) (parse : String → Option A) (fallback v : A)
    → setting env key parse fallback ≡ ok v
    → Gives env key parse fallback v
unfolding setting
setting-Gives env key parse fallback v h = elim (Bool-cases (is_empty (getenv env key))) [
  | inl blank ↦
      inl (ground (arith, eq_iff (getenv env key) ""), ok_value fallback v (rw blank at h))
  | inr given ↦ inr (
    ground (arith, eq_iff (getenv env key) ""),
    ok-parsed key (getenv env key) (parse (getenv env key)) v (rw given at h),
  )
]

Gives-setting {ℓ} :
    {A : Type ℓ} (env : Environment) (key : String) (parse : String → Option A) (fallback v : A)
    → Gives env key parse fallback v
    → setting env key parse fallback ≡ ok v
unfolding setting
Gives-setting env key parse fallback v (inl (e, same)) = rw e (ap ok (sym same))
Gives-setting env key parse fallback v (inr (e, same)) =
    elim (Bool-cases (is_empty (getenv env key))) [
      | inl blank ↦ absurd (e ((eq_iff (getenv env key) "").0 blank))
      | inr given ↦ rw given (rw same)
    ]

-- A setting that was read, in front of the rest of main.
reading {ℓ κ} :
    {A : Type ℓ} {B : Type κ} (env : Environment) (key : String) (parse : String → Option A)
    (fallback : A) (rest : A → Result Fatal B) {s : B}
    → (setting env key parse fallback >>= rest) ≡ ok s
    → (v : A) × Gives env key parse fallback v × (rest v ≡ ok s)
reading env key parse fallback rest h =
    let (v, e, later) = >>=-eq-ok (setting env key parse fallback) rest h in
    (v, setting-Gives env key parse fallback v e, later)

module _ {C : Type 0} (parse_duration : String → Option ℤ)
    (files : String → String → Tlscert.Disk C) where
  abbrev GivesDuration : Environment → String → ℤ → ℤ → Type 0
  GivesDuration env key fallback v = Gives env key parse_duration fallback v

  -- Settings that are as the environment says. Each variable but the texts has a parser and a
  -- default; the texts are taken as they are.
  pub record IsRead (env : Environment) (s : Settings C) : Type 0 where
    pub poll_interval :
        GivesDuration env "DEALER_CONFIG_POLL_INTERVAL" default_poll_interval
          s.options.poll_interval
    pub origin_timeout :
        GivesDuration env "DEALER_ORIGIN_TIMEOUT" default_origin_timeout s.options.origin_timeout
    pub max_body :
        Gives env "DEALER_MAX_BODY_BYTES" parse_int default_max_request_body_bytes
          s.options.max_request_body_bytes
    pub unhealthy_cooldown :
        GivesDuration env "DEALER_UNHEALTHY_COOLDOWN" default_unhealthy_cooldown
          s.options.unhealthy_cooldown
    pub health_check_interval :
        GivesDuration env "DEALER_HEALTH_CHECK_INTERVAL" default_health_check_interval
          s.options.health_check_interval
    pub health_check_timeout :
        GivesDuration env "DEALER_HEALTH_CHECK_TIMEOUT" default_health_check_timeout
          s.options.health_check_timeout
    pub retry_max_attempts :
        Gives env "DEALER_RETRY_MAX_ATTEMPTS" parse_int default_retry_max_attempts
          s.options.retry_max_attempts
    pub retry_backoff_base :
        GivesDuration env "DEALER_RETRY_BACKOFF_BASE" default_retry_backoff_base
          s.options.retry_backoff_base
    pub breaker_threshold :
        Gives env "DEALER_CIRCUIT_BREAKER_THRESHOLD" parse_int (pos 0) s.options.breaker_threshold
    pub breaker_cooldown :
        GivesDuration env "DEALER_CIRCUIT_BREAKER_COOLDOWN" default_breaker_cooldown
          s.options.breaker_cooldown
    pub trust_request_id :
        Gives env "DEALER_TRUST_REQUEST_ID" parse_bool false s.options.trust_request_id
    pub tls_reload_interval :
        GivesDuration env "DEALER_TLS_RELOAD_INTERVAL" default_tls_reload_interval
          s.tls_reload_interval
    pub tls :
        build_tls_config files
          (getenv env "DEALER_TLS_CERT_FILE")
          (getenv env "DEALER_TLS_KEY_FILE")
        ≡ ok s.tls
    pub texts :
        (s.config_path ≡ env_or env "DEALER_CONFIG_PATH" "config.yml")
        × (s.acme_email ≡ getenv env "DEALER_ACME_EMAIL")
        × (s.listen_addr ≡ listen_address env)
        × (s.options.health_check_path ≡ getenv env "DEALER_HEALTH_CHECK_PATH")
        × (s.options.trusted_proxies ≡ getenv env "DEALER_TRUSTED_PROXIES")
        × (s.options.otlp_endpoint ≡ getenv env "OTEL_EXPORTER_OTLP_ENDPOINT")
        × (s.options.service_name ≡ getenv env "OTEL_SERVICE_NAME")

  IsRead-read_settings :
      (env : Environment) (s : Settings C)
      → IsRead env s
      → read_settings parse_duration files env ≡ ok s
  unfolding read_settings
  IsRead-read_settings env s h =
      rw
        (Gives-setting env "DEALER_CONFIG_POLL_INTERVAL" parse_duration default_poll_interval
          s.options.poll_interval h.poll_interval)
        (rw
          (Gives-setting env "DEALER_ORIGIN_TIMEOUT" parse_duration default_origin_timeout
            s.options.origin_timeout h.origin_timeout)
          (rw
            (Gives-setting env "DEALER_MAX_BODY_BYTES" parse_int default_max_request_body_bytes
              s.options.max_request_body_bytes h.max_body)
            (rw
              (Gives-setting env "DEALER_UNHEALTHY_COOLDOWN" parse_duration
                default_unhealthy_cooldown s.options.unhealthy_cooldown h.unhealthy_cooldown)
              (rw
                (Gives-setting env "DEALER_HEALTH_CHECK_INTERVAL" parse_duration
                  default_health_check_interval s.options.health_check_interval
                  h.health_check_interval)
                (rw
                  (Gives-setting env "DEALER_HEALTH_CHECK_TIMEOUT" parse_duration
                    default_health_check_timeout s.options.health_check_timeout
                    h.health_check_timeout)
                  (rw
                    (Gives-setting env "DEALER_RETRY_MAX_ATTEMPTS" parse_int
                      default_retry_max_attempts s.options.retry_max_attempts h.retry_max_attempts)
                    (rw
                      (Gives-setting env "DEALER_RETRY_BACKOFF_BASE" parse_duration
                        default_retry_backoff_base s.options.retry_backoff_base
                        h.retry_backoff_base)
                      (rw
                        (Gives-setting env "DEALER_CIRCUIT_BREAKER_THRESHOLD" parse_int (pos 0)
                          s.options.breaker_threshold h.breaker_threshold)
                        (rw
                          (Gives-setting env "DEALER_CIRCUIT_BREAKER_COOLDOWN" parse_duration
                            default_breaker_cooldown s.options.breaker_cooldown h.breaker_cooldown)
                          (rw
                            (Gives-setting env "DEALER_TRUST_REQUEST_ID" parse_bool false
                              s.options.trust_request_id h.trust_request_id)
                            (rw h.tls (
                              rw
                                (Gives-setting env "DEALER_TLS_RELOAD_INTERVAL" parse_duration
                                  default_tls_reload_interval s.tls_reload_interval
                                  h.tls_reload_interval)
                                (ground arith)))))))))))))

  read_settings-IsRead :
      (env : Environment) (s : Settings C)
      → read_settings parse_duration files env ≡ ok s
      → IsRead env s
  unfolding read_settings
  read_settings-IsRead env s h =
      let (poll, poll_given, h1) =
        reading env "DEALER_CONFIG_POLL_INTERVAL" parse_duration default_poll_interval _ h in
      let (origin, origin_given, h2) =
        reading env "DEALER_ORIGIN_TIMEOUT" parse_duration default_origin_timeout _ h1 in
      let (body, body_given, h3) =
        reading env "DEALER_MAX_BODY_BYTES" parse_int default_max_request_body_bytes _ h2 in
      let (unhealthy, unhealthy_given, h4) =
        reading env "DEALER_UNHEALTHY_COOLDOWN" parse_duration default_unhealthy_cooldown _ h3 in
      let (interval, interval_given, h5) =
        reading env "DEALER_HEALTH_CHECK_INTERVAL" parse_duration default_health_check_interval _
          h4 in
      let (timeout, timeout_given, h6) =
        reading env "DEALER_HEALTH_CHECK_TIMEOUT" parse_duration default_health_check_timeout _
          h5 in
      let (attempts, attempts_given, h7) =
        reading env "DEALER_RETRY_MAX_ATTEMPTS" parse_int default_retry_max_attempts _ h6 in
      let (backoff, backoff_given, h8) =
        reading env "DEALER_RETRY_BACKOFF_BASE" parse_duration default_retry_backoff_base _ h7 in
      let (threshold, threshold_given, h9) =
        reading env "DEALER_CIRCUIT_BREAKER_THRESHOLD" parse_int (pos 0) _ h8 in
      let (cooldown, cooldown_given, h10) =
        reading env "DEALER_CIRCUIT_BREAKER_COOLDOWN" parse_duration default_breaker_cooldown _
          h9 in
      let (trust, trust_given, h11) =
        reading env "DEALER_TRUST_REQUEST_ID" parse_bool false _ h10 in
      let (tls, loaded, h12) =
        >>=-eq-ok
          (build_tls_config files (getenv env "DEALER_TLS_CERT_FILE")
            (getenv env "DEALER_TLS_KEY_FILE"))
          _ h11 in
      let (reload, reload_given, h13) =
        reading env "DEALER_TLS_RELOAD_INTERVAL" parse_duration default_tls_reload_interval _ h12 in
      subst (IsRead env) (sym (ok_value _ s h13)) (record {
        poll_interval = poll_given;
        origin_timeout = origin_given;
        max_body = body_given;
        unhealthy_cooldown = unhealthy_given;
        health_check_interval = interval_given;
        health_check_timeout = timeout_given;
        retry_max_attempts = attempts_given;
        retry_backoff_base = backoff_given;
        breaker_threshold = threshold_given;
        breaker_cooldown = cooldown_given;
        trust_request_id = trust_given;
        tls_reload_interval = reload_given;
        tls = loaded;
        texts = (refl, refl, refl, refl, refl, refl, refl);
      })

  -- main gets as far as building the gateway exactly if each variable that is set parses and the
  -- certificate files are right, and then the settings are these: a variable that is not set or empty
  -- gives its default, any other the value it parses to, and the texts are taken as they are.
  pub read_settings-ok_iff :
      (env : Environment) (s : Settings C)
      → (read_settings parse_duration files env ≡ ok s) ↔ IsRead env s
  read_settings-ok_iff env s = (read_settings-IsRead env s, IsRead-read_settings env s)
