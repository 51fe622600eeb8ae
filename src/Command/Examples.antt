-- ===== src/Command/Examples.antt =====
-- The results on cmd/dealer/main.go at concrete environments, and runs of its parsers.
use dealer.Base.{
  ◌++◌, ℕ, ◌≡◌, ◌↔◌, refl, Bool, true, false, Option, none, some, List, [], ◌∷◌, String, str_eq,
  elem, if◌then◌else◌, ℤ, pos, negsuc, Result, ok, err, any,
}
use dealer.Command.Environment.{Environment, parse_int, parse_bool, invalid_setting, acme_and_files}
use dealer.Command.Settings.{Settings, read_settings}
use dealer.Command.Settings.Reading.{IsRead, read_settings-ok_iff}
use dealer.Command.Servers.{
  new_metrics_server, Running, start, new_root_mux, gateway, info, running, mux,
}
use dealer.Command.Servers.Security.{Secured, start-Secured}
use dealer.Command.Serving.{
  command, side_returned, metrics, broken, signal, returned_line, side_of, shutting_down,
}
use dealer.Command.Serving.Deciding.{by_signal, command-closes}
use dealer.Command.Shutdown.{Action, exit_fatal, shutdown_main}
use dealer.Command.Shutdown.Ordering.{is_close, last_of}
use dealer.Gateway.Options.{Options}
use dealer.Tlscert as Tlscert
use dealer.Tlscert.{Files}

abbrev pub variables : List (String × String) → Environment
variables [] key = none
variables ((k, v) ∷ rest) key = if str_eq k key then some v else variables rest key

-- A parser of durations for the examples, in milliseconds.
abbrev pub durations : String → Option ℤ
durations text =
    if str_eq text "2s" then some (pos 2000) else if str_eq text "0s" then some (pos 0) else none

-- A certificate is a number.
abbrev pub pair : String → String → Tlscert.Disk ℕ
pair cert_file key_file n = record {
  cert_mod_time = some 3;
  key_mod_time = some 4;
  load_key_pair = ok 7;
}

abbrev hosts : List String → String → Bool
hosts known host = elem host known

abbrev a_gateway : String → Options → Result String (List String)
a_gateway path options = ok ("shop.example" ∷ [])

abbrev with_files : Environment
with_files = variables (
    ("DEALER_TLS_CERT_FILE", "cert.pem")
    ∷ ("DEALER_TLS_KEY_FILE", "key.pem")
    ∷ ("DEALER_TLS_RELOAD_INTERVAL", "0s")
    ∷ ("DEALER_INFO_PATH", "/_dealer")
    ∷ ("DEALER_MAX_BODY_BYTES", "-5")
    ∷ [])

parsers :
    (parse_int "-9223372036854775808" ≡ some (negsuc 9223372036854775807))
    × (parse_int "9223372036854775808" ≡ none)
    × (parse_int "+12" ≡ some (pos 12))
    × (parse_int "1_0" ≡ none)
    × (parse_int "-" ≡ none)
    × (parse_bool "TRUE" ≡ some true)
    × (parse_bool "yes" ≡ none)
unfolding parse_int parse_bool
parsers = (refl, refl, refl, refl, refl, refl, refl)

bad_setting :
    read_settings durations pair (variables (("DEALER_RETRY_MAX_ATTEMPTS", "two") ∷ []))
    ≡ err (invalid_setting "DEALER_RETRY_MAX_ATTEMPTS" "two")
unfolding read_settings
bad_setting = refl

acme_with_files :
    start durations pair a_gateway hosts (
      variables (
        ("DEALER_ACME_EMAIL", "ops@shop.example")
        ∷ ("DEALER_TLS_CERT_FILE", "cert.pem")
        ∷ ("DEALER_TLS_KEY_FILE", "key.pem")
        ∷ []))
    ≡ err acme_and_files
unfolding start
acme_with_files = refl

info_elsewhere :
    (new_root_mux "/_dealer" ≡ some (("GET /_dealer", info) ∷ ("/", gateway) ∷ []))
    × (new_root_mux "" ≡ some (("/", gateway) ∷ []))
    × (new_root_mux "info" ≡ none)
unfolding new_root_mux
info_elsewhere = (refl, refl, refl)

abbrev some_settings : Settings ℕ
some_settings = record {
  config_path = "config.yml";
  acme_email = "";
  listen_addr = "0.0.0.0:3000";
  options = record {
    poll_interval = pos 2_000_000_000;
    origin_timeout = pos 10_000_000_000;
    max_request_body_bytes = negsuc 4;
    unhealthy_cooldown = pos 10_000_000_000;
    health_check_path = "";
    health_check_interval = pos 10_000_000_000;
    health_check_timeout = pos 2_000_000_000;
    retry_max_attempts = pos 1;
    retry_backoff_base = pos 100_000_000;
    breaker_threshold = pos 0;
    breaker_cooldown = pos 30_000_000_000;
    trust_request_id = false;
    trusted_proxies = "";
    otlp_endpoint = "";
    service_name = "";
  };
  tls = some (record { cert = 7; last_cert_mod_time = 3; last_key_mod_time = 4 });
  tls_reload_interval = pos 0;
}

settings_read : read_settings durations pair with_files ≡ ok some_settings
unfolding read_settings
settings_read = refl

read_settings-ok_iff_example :
    (read_settings durations pair with_files ≡ ok some_settings)
    ↔ IsRead durations pair with_files some_settings
read_settings-ok_iff_example = read_settings-ok_iff durations pair with_files some_settings

abbrev a_run : Running ℕ (List String)
a_run =
    running with_files some_settings ("shop.example" ∷ []) none
      (mux (("GET /_dealer", info) ∷ ("/", gateway) ∷ []))

runs : start durations pair a_gateway hosts with_files ≡ ok a_run
unfolding start
runs = refl

start-Secured_example : Secured pair hosts with_files a_run
start-Secured_example = start-Secured durations pair a_gateway hosts with_files runs

-- The metrics server fails, and later a shutdown that does not finish in time ends the command.
command-closes_example :
    (actions : List Action) × (command a_run
        (side_returned metrics (broken "in use") ∷ signal true ∷ [])
      ≡ (
        returned_line metrics (broken "in use") (side_of a_run metrics) ++ shutting_down ∷ [],
        some actions,
      ))
    × (any is_close actions ≡ false)
    × (last_of shutdown_main actions ≡ exit_fatal)
unfolding new_metrics_server
command-closes_example = command-closes a_run ((metrics, broken "in use") ∷ []) [] (by_signal true)
