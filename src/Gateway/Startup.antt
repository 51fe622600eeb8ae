-- ===== src/Gateway/Startup.antt =====
-- gateway/gateway.go: New. The reading of the configuration is Config/Parse.antt's load at its
-- parameters, the compilation of the mux is Gateway/Assembly.antt's at its own, where it
-- returns; here both are given.
pub mod Building
use dealer.Base.{ℕ, Bool, Option, String, ℤ, Result, ok, err, ◌>>=◌}
use dealer.ClientIp.{NetIp, Resolver, parse}
use dealer.Config.Parse.{ConfigError}
use dealer.Config.Types.{Config}
use dealer.Config.Watcher.{FileInfo, Watcher, new_watcher}
use dealer.Gateway.Generations as Generations
use dealer.Gateway.Generations.{Gateway}
use dealer.Gateway.Options.{
  Options, ResolvedOptions, resolve_options, resolve_poll_interval, resolve_service_name,
}
use dealer.Tracing.Otel.{TracerProvider, new_tracer_provider}

pub data NewError (E : Type 0) : Type 0 where
  config_failed : ConfigError → NewError E
  bad_proxies : String → NewError E
  tracing_failed : String → NewError E
  mux_failed : E → NewError E

-- `return nil, err`, with where the error came from.
abbrev pub tagged {ℓ} :
    {E X : Type 0} {A : Type ℓ} → (X → NewError E) → Result X A → Result (NewError E) A
tagged tag (err why) = err (tag why)
tagged tag (ok a) = ok a

-- A gateway that runs: its generation, the trusted proxies, the tracing, whether inbound request ids
-- are trusted, and the config watcher with its interval and with buildMux as its callback calls it.
pub record Started (F E M X R : Type 0) (ip : NetIp) : Type 0 where
  pub gateway : Gateway M
  pub proxies : Resolver ip
  pub provider : Option (TracerProvider X R)
  pub trust_request_id : Bool
  pub watcher : Watcher
  pub poll_interval : ℤ
  pub rebuild : Config F → Result E M

module _ {F E M X R : Type 0} (ip : NetIp) (load : String → Result ConfigError (Config F))
    (new_exporter : String → Result String X) (new_resource : String → Result String R)
    (build : ResolvedOptions → Config F → Result E M) (watched : String → Option FileInfo) where
  -- New. `watched` is what os.Stat tells NewWatcher of the file.
  unfoldable pub new : String → Options → Result (NewError E) (Started F E M X R ip)
  unfolding new_tracer_provider new_watcher resolve_options resolve_poll_interval
      resolve_service_name
  new config_path opts = do
    cfg ← tagged config_failed (load config_path)
    proxies ← tagged bad_proxies (parse ip opts.trusted_proxies)
    provider ← tagged tracing_failed (
        new_tracer_provider new_exporter new_resource opts.otlp_endpoint
          (resolve_service_name opts))
    gw ← tagged mux_failed (Generations.start (build (resolve_options opts)) cfg)
    ok (record {
      gateway = gw;
      proxies = proxies;
      provider = provider;
      trust_request_id = opts.trust_request_id;
      watcher = new_watcher (watched config_path);
      poll_interval = resolve_poll_interval opts;
      rebuild = build (resolve_options opts);
    })
