-- ===== src/Command/HostingExamples.antt =====
-- For which hosts the command of cmd/dealer/main.go requests certificates, at a concrete file and an
-- edit of it.
use dealer.Base.{
  ◌==◌, ap, length, ◌≢◌, eq_iff, trim_suffix, to_lower, ℕ, ◌≡◌, ◌↔◌, refl, true, false, Option,
  none, some, List, [], ◌∷◌, String, str_eq, elem, if◌then◌else◌, Result, ok, err,
}
use dealer.Command.Environment.{Environment, getenv, env_or, Fatal}
use dealer.Command.Servers.{from_acme, Running, start}
use mathlib.Core.Bool.{false≢true}
use dealer.Acmecert as Acmecert
use dealer.ClientIp.{NetIp, parse}
use dealer.Gateway.Generations as Generations
use dealer.Command.Servers.Hosting.{new_gateway, knows_host, start-hosts}
use dealer.Config.Hosts.{hosts as config_hosts}
use dealer.Config.Parse.{ConfigError}
use dealer.Config.Types.{Config, Service}
use dealer.Config.Watcher.{Disk, FileInfo}
use dealer.Gateway.Reloading.Freshness.{in_force}
use dealer.Gateway.Options.{ResolvedOptions}
use dealer.Gateway.Startup.{NewError, Started, new}
use dealer.Command.Examples.{variables, durations, pair}

-- One service, on shop.example.
abbrev shop : Service ℕ
shop = record {
  name = "shop";
  path = "/";
  host = "shop.example";
  origin_url = "http://a";
  origin_urls = [];
  methods = [];
  plugins = [];
  health_check = none;
  retry_unsafe_methods = false;
  preserve_request_id = false;
}

abbrev config : Config ℕ
config = record { services = shop ∷ [] }

abbrev load_shop : String → Result ConfigError (Config ℕ)
load_shop path = ok config

abbrev addresses : NetIp
addresses = record {
  Addr = String;
  Prefix = String;
  parse_addr = λ s. some s;
  parse_prefix = λ s. none;
  masked = λ p. p;
  whole = λ a. a;
  unmap = λ a. a;
  show = λ a. a;
  contains = λ p a. str_eq p a;
  split_host = λ s. some s;
}

abbrev no_tracing : String → Result String ℕ
no_tracing endpoint = err "no collector"

-- The mux of a configuration is the number of its services.
abbrev compile : ResolvedOptions → Config ℕ → Result String ℕ
compile opts cfg = ok (length cfg.services)

abbrev show : NewError String → String
show e = "failed"

abbrev with_acme : Environment
with_acme = variables (("DEALER_ACME_EMAIL", "ops@shop.example") ∷ [])

-- The configuration file at the start, and an edit of it that adds a second shop.
abbrev at_start : FileInfo
at_start = record { mod_time = 1; size = 1 }

abbrev edited : FileInfo
edited = record { mod_time = 2; size = 2 }

abbrev second_shop : Service ℕ
second_shop = record shop { host = "two.example" }

abbrev two_shops : Config ℕ
two_shops = record { services = shop ∷ second_shop ∷ [] }

abbrev content : FileInfo → Result ConfigError (Config ℕ)
content version = if version.size == 1 then ok config else ok two_shops

abbrev stat_at_start : String → Option FileInfo
stat_at_start path = some at_start

abbrev found : List (Disk (Config ℕ) ConfigError)
found = record { stat = some edited; load = ok two_shops } ∷ []

abbrev start_acme_gateway : Result Fatal (Running ℕ (Started ℕ String ℕ ℕ ℕ addresses))
start_acme_gateway =
    start durations pair
      (new_gateway durations pair addresses load_shop no_tracing no_tracing compile stat_at_start
        show found)
      (knows_host durations pair addresses load_shop no_tracing no_tracing compile stat_at_start
        show found)
      with_acme

acme_run : (run : Running ℕ (Started ℕ String ℕ ℕ ℕ addresses)) × (start_acme_gateway ≡ ok run)
unfolding start new parse Generations.start Acmecert.new
acme_run = (_, refl)

given : getenv with_acme "DEALER_ACME_EMAIL" ≢ ""
given h = false≢true ((eq_iff "ops@shop.example" "").1 h)

content_of_edit : (version : FileInfo) → some edited ≡ some version → ok two_shops ≡ content version
content_of_edit version e = let same : edited ≡ version = cc in ap content same

start-hosts_example :
    (manager : Acmecert.Manager) × (cfg : Config ℕ) × (acme_run.0.srv.tls_config
      ≡ some (from_acme manager))
    × (load_shop "config.yml" ≡ ok cfg)
    × ((host : String)
        → (manager.host_policy host ≡ ok tt) ↔ (
            elem (trim_suffix (to_lower host) ".") (
              config_hosts
                (in_force content acme_run.0.gw.rebuild (cfg, acme_run.0.gw.gateway.mux) found).0)
            ≡ true))
unfolding env_or
start-hosts_example =
    start-hosts durations pair addresses load_shop no_tracing no_tracing compile stat_at_start show
      found with_acme acme_run.0 content at_start acme_run.1 given refl refl (content_of_edit, tt)
