-- ===== src/Command/Settings.antt =====
-- cmd/dealer/main.go: what main reads from the environment before it builds the gateway, in its
-- order. time.ParseDuration is a parameter; the certificate files are those of Tlscert.antt.
pub mod Reading
use dealer.Base.{
  Bool, true, false, ◌&&◌, ◌||◌, Option, none, some, String, is_empty, if◌then◌else◌, ℤ, pos,
  Result, ok, err, ◌>>=◌,
}
use dealer.Command.Environment.{
  Environment, getenv, env_or, parse_int, parse_bool, setting, Fatal, tls_set_together, tls_load,
}
use dealer.Gateway.Options.{
  Options, default_poll_interval, default_origin_timeout, default_max_request_body_bytes,
  default_unhealthy_cooldown, default_health_check_interval, default_health_check_timeout,
  default_retry_max_attempts, default_retry_backoff_base, default_breaker_cooldown,
}
use dealer.Tlscert as Tlscert
use dealer.Tlscert.{Reloader, Files, new_reloader}

abbrev pub default_tls_reload_interval : ℤ
default_tls_reload_interval = pos 30_000_000_000

abbrev pub default_listen_addr : String
default_listen_addr = "0.0.0.0:3000"

abbrev pub default_acme_listen_addr : String
default_acme_listen_addr = "0.0.0.0:443"

pub record Settings (C : Type 0) : Type 0 where
  pub config_path : String
  pub acme_email : String
  pub listen_addr : String
  pub options : Options
  pub tls : Option (Reloader C)
  pub tls_reload_interval : ℤ

abbrev pub loaded : {C : Type 0} → Result String (Reloader C) → Result Fatal (Option (Reloader C))
loaded (err why) = err (tls_load why)
loaded (ok reloader) = ok (some reloader)

-- buildTLSConfig
unfoldable pub build_tls_config :
    {C : Type 0}
    → (String → String → Tlscert.Disk C)
    → String
    → String
    → Result Fatal (Option (Reloader C))
unfolding new_reloader
build_tls_config files cert_file key_file =
    if is_empty cert_file && is_empty key_file
    then ok none
    else if is_empty cert_file || is_empty key_file
    then err tls_set_together
    else loaded (new_reloader (files cert_file key_file))

-- The address that main listens on.
unfoldable pub listen_address : Environment → String
unfolding env_or
listen_address env = env_or env "DEALER_LISTEN_ADDR" (
    if is_empty (getenv env "DEALER_ACME_EMAIL")
    then default_listen_addr
    else default_acme_listen_addr)

module _ {C : Type 0} (parse_duration : String → Option ℤ)
    (files : String → String → Tlscert.Disk C) where
  -- main, up to the call of gateway.New.
  unfoldable pub read_settings : Environment → Result Fatal (Settings C)
  unfolding setting build_tls_config listen_address parse_int parse_bool
  read_settings env = do
    poll ← setting env "DEALER_CONFIG_POLL_INTERVAL" parse_duration default_poll_interval
    origin ← setting env "DEALER_ORIGIN_TIMEOUT" parse_duration default_origin_timeout
    body ← setting env "DEALER_MAX_BODY_BYTES" parse_int default_max_request_body_bytes
    unhealthy ← setting env "DEALER_UNHEALTHY_COOLDOWN" parse_duration default_unhealthy_cooldown
    interval ←
        setting env "DEALER_HEALTH_CHECK_INTERVAL" parse_duration default_health_check_interval
    timeout ← setting env "DEALER_HEALTH_CHECK_TIMEOUT" parse_duration default_health_check_timeout
    attempts ← setting env "DEALER_RETRY_MAX_ATTEMPTS" parse_int default_retry_max_attempts
    backoff ← setting env "DEALER_RETRY_BACKOFF_BASE" parse_duration default_retry_backoff_base
    threshold ← setting env "DEALER_CIRCUIT_BREAKER_THRESHOLD" parse_int (pos 0)
    cooldown ← setting env "DEALER_CIRCUIT_BREAKER_COOLDOWN" parse_duration default_breaker_cooldown
    trust ← setting env "DEALER_TRUST_REQUEST_ID" parse_bool false
    tls ←
        build_tls_config files (getenv env "DEALER_TLS_CERT_FILE")
          (getenv env "DEALER_TLS_KEY_FILE")
    reload ← setting env "DEALER_TLS_RELOAD_INTERVAL" parse_duration default_tls_reload_interval
    ok (record {
      config_path = env_or env "DEALER_CONFIG_PATH" "config.yml";
      acme_email = getenv env "DEALER_ACME_EMAIL";
      listen_addr = listen_address env;
      options = record {
        poll_interval = poll;
        origin_timeout = origin;
        max_request_body_bytes = body;
        unhealthy_cooldown = unhealthy;
        health_check_path = getenv env "DEALER_HEALTH_CHECK_PATH";
        health_check_interval = interval;
        health_check_timeout = timeout;
        retry_max_attempts = attempts;
        retry_backoff_base = backoff;
        breaker_threshold = threshold;
        breaker_cooldown = cooldown;
        trust_request_id = trust;
        trusted_proxies = getenv env "DEALER_TRUSTED_PROXIES";
        otlp_endpoint = getenv env "OTEL_EXPORTER_OTLP_ENDPOINT";
        service_name = getenv env "OTEL_SERVICE_NAME";
      };
      tls = tls;
      tls_reload_interval = reload;
    })
