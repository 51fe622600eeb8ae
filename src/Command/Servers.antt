-- ===== src/Command/Servers.antt =====
-- cmd/dealer/main.go: the servers that main builds from its settings and from the gateway. The
-- gateway's constructor and its HasHost are parameters here; `G` is a gateway and `C` a certificate.
-- A `G` is the gateway as New returned it, and `has_host g` is what its HasHost answers at the time
-- of the question, which changes with the hot reloads: a statement about any `has_host` is one about
-- any such time.
-- Times are nanoseconds, and zero is no limit.
pub mod Security
pub mod Watching
pub mod Hosting
use dealer.Base.{
  ℕ, Bool, true, false, not, Option, none, some, List, [], ◌∷◌, String, append, has_prefix, str_eq,
  is_empty, if◌then◌else◌, ℤ, Result, ok, err, ◌>>=◌,
}
use dealer.Acmecert as Acmecert
use dealer.Command.Environment.{
  Environment, getenv, env_or, Fatal, invalid_setting, gateway_failed, acme_and_files, acme_failed,
}
use dealer.Command.Settings.{Settings, read_settings}
use dealer.Gateway.Options.{Options}
use dealer.Tlscert as Tlscert
use dealer.Tlscert.{Reloader, Files}

abbrev pub read_header_timeout : ℕ
read_header_timeout = 5_000_000_000

abbrev pub read_timeout : ℕ
read_timeout = 15_000_000_000

abbrev pub write_timeout : ℕ
write_timeout = 15_000_000_000

abbrev pub idle_timeout : ℕ
idle_timeout = 60_000_000_000

abbrev pub default_acme_http_addr : String
default_acme_http_addr = "0.0.0.0:80"

-- Where the certificates of a listener come from.
pub data Certificates (C : Type 0) : Type 0 where
  from_files : Reloader C → Certificates C
  from_acme : Acmecert.Manager → Certificates C

pub data Endpoint : Type 0 where
  gateway : Endpoint
  info : Endpoint
  metrics : Endpoint

-- What a server serves: a mux with its patterns in the order in which they were registered, the
-- ACME challenges with the redirect to HTTPS, or http.DefaultServeMux.
pub data Served : Type 0 where
  mux : List (String × Endpoint) → Served
  challenges : Acmecert.Manager → Served
  default_mux : Served

-- http.Server
pub record Server (C : Type 0) : Type 0 where
  pub addr : String
  pub handler : Served
  pub tls_config : Option (Certificates C)
  pub read_header_timeout : ℕ
  pub read_timeout : ℕ
  pub write_timeout : ℕ
  pub idle_timeout : ℕ

-- A server of the command beside its main one: plain HTTP, with a limit on the header only.
abbrev pub side_server : {C : Type 0} → String → Served → Server C
side_server addr handler = record {
  addr = addr;
  handler = handler;
  tls_config = none;
  read_header_timeout = read_header_timeout;
  read_timeout = 0;
  write_timeout = 0;
  idle_timeout = 0;
}

-- newDebugServer
unfoldable pub new_debug_server : {C : Type 0} → String → Option (Server C)
new_debug_server addr = if is_empty addr then none else some (side_server addr default_mux)

-- newMetricsServer
unfoldable pub new_metrics_server : {C : Type 0} → String → Option (Server C)
new_metrics_server addr =
    if is_empty addr then none else some (side_server addr (mux (("GET /metrics", metrics) ∷ [])))

-- newRootMux; none is its error.
unfoldable pub new_root_mux : String → Option (List (String × Endpoint))
new_root_mux info_path =
    if is_empty info_path
    then some (("/", gateway) ∷ [])
    else if not (has_prefix info_path "/")
    then none
    else if str_eq info_path "/"
    then some (("GET /{$}", info) ∷ ("/", gateway) ∷ [])
    else some ((append "GET " info_path, info) ∷ ("/", gateway) ∷ [])

-- os.LookupEnv("DEALER_INFO_PATH"): a variable that is set and empty disables the endpoint.
abbrev pub info_path_of : Environment → String
info_path_of env = elim (env "DEALER_INFO_PATH") [ none ↦ "/" | some path ↦ path ]

-- What main runs.
pub record Running (C G : Type 0) : Type 0 where
  pub gw : G
  pub srv : Server C
  pub debug_srv : Option (Server C)
  pub acme_http_srv : Option (Server C)
  pub metrics_srv : Option (Server C)
  pub cert_reloader : Option (Reloader C × ℤ)

abbrev pub acme_manager :
    Result Acmecert.AcmeError Acmecert.Manager → Result Fatal (Option Acmecert.Manager)
acme_manager (err why) = err acme_failed
acme_manager (ok manager) = ok (some manager)

module _ {C G : Type 0} (has_host : G → String → Bool) where
  -- The manager of DEALER_ACME_EMAIL, if it is set.
  unfoldable pub start_acme : Environment → Settings C → G → Result Fatal (Option Acmecert.Manager)
  start_acme env s gw = if is_empty s.acme_email then ok none else elim s.tls [
    | some reloader ↦ err acme_and_files
    | none ↦ acme_manager (
        Acmecert.new (record {
          email = s.acme_email;
          cache_dir = getenv env "DEALER_ACME_CACHE_DIR";
          directory_url = getenv env "DEALER_ACME_DIRECTORY_URL";
          allowed = some (has_host gw);
        }))
  ]

-- The certificates of the main server.
abbrev pub certificates :
    {C : Type 0} → Option Acmecert.Manager → Option (Reloader C) → Option (Certificates C)
certificates (some manager) tls = some (from_acme manager)
certificates none (some reloader) = some (from_files reloader)
certificates none none = none

abbrev pub acme_server : {C : Type 0} → Environment → Option Acmecert.Manager → Option (Server C)
acme_server env none = none
acme_server env (some manager) =
    some
      (side_server (env_or env "DEALER_ACME_HTTP_ADDR" default_acme_http_addr) (challenges manager))

abbrev pub reloading : {C : Type 0} → Option (Reloader C) → ℤ → Option (Reloader C × ℤ)
reloading none interval = none
reloading (some reloader) interval = some (reloader, interval)

abbrev pub mounted : String → Option (List (String × Endpoint)) → Result Fatal Served
mounted path none = err (invalid_setting "DEALER_INFO_PATH" path)
mounted path (some patterns) = ok (mux patterns)

abbrev pub created : {G : Type 0} → Result String G → Result Fatal G
created (err why) = err (gateway_failed why)
created (ok gw) = ok gw

-- The servers that main starts.
abbrev pub running :
    {C G : Type 0} → Environment → Settings C → G → Option Acmecert.Manager → Served → Running C G
running env s gw manager root = record {
  gw = gw;
  srv = record {
    addr = s.listen_addr;
    handler = root;
    tls_config = certificates manager s.tls;
    read_header_timeout = read_header_timeout;
    read_timeout = read_timeout;
    write_timeout = write_timeout;
    idle_timeout = idle_timeout;
  };
  debug_srv = new_debug_server (getenv env "DEALER_DEBUG_ADDR");
  acme_http_srv = acme_server env manager;
  metrics_srv = new_metrics_server (getenv env "DEALER_METRICS_ADDR");
  cert_reloader = reloading s.tls s.tls_reload_interval;
}

module _ {C G : Type 0} (parse_duration : String → Option ℤ)
    (files : String → String → Tlscert.Disk C) (new_gateway : String → Options → Result String G)
    (has_host : G → String → Bool) where
  -- main, up to the start of the servers.
  unfoldable pub start : Environment → Result Fatal (Running C G)
  unfolding read_settings start_acme new_debug_server new_metrics_server new_root_mux env_or
  start env = do
    s ← read_settings parse_duration files env
    gw ← created (new_gateway s.config_path s.options)
    manager ← start_acme has_host env s gw
    root ← mounted (info_path_of env) (new_root_mux (info_path_of env))
    ok (running env s gw manager root)
