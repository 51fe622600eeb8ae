-- ===== src/Gateway/Startup/Building.antt =====
-- What a gateway that New of gateway/gateway.go built was built from.
use dealer.Base.{
  Option, refl, ◌≡◌, subst, String, Result, ok, err, >>=-eq-ok, Result-cases, inl, inr, arith,
}
use dealer.ClientIp.{NetIp, parse}
use dealer.Config.Parse.{ConfigError}
use dealer.Config.Types.{Config}
use dealer.Config.Hosts.{hosts}
use dealer.Config.Watcher.{FileInfo, new_watcher}
use dealer.Gateway.Generations as Generations
use dealer.Gateway.Generations.{has_host, store_hosts}
use dealer.Gateway.Options.{Options, ResolvedOptions, resolve_options, resolve_service_name}
use dealer.Gateway.Options.Defaults.{IsPositive, resolve_options-IsSane}
use dealer.Gateway.Startup.{
  NewError, Started, tagged, new, config_failed, bad_proxies, tracing_failed, mux_failed,
}
use dealer.Tracing.Otel.{new_tracer_provider}

ok-tagged {ℓ} :
    {E X : Type 0} {A : Type ℓ} (tag : X → NewError E) (m : Result X A) (a : A)
    → tagged tag m ≡ ok a
    → m ≡ ok a
ok-tagged tag (err why) a h = cc
ok-tagged tag (ok b) a h = cc

ok_same {ℓ} : {E : Type 0} {A : Type ℓ} {a b : A} → ◌≡◌ {A = Result E A} (ok a) (ok b) → a ≡ b
ok_same h = cc

module _ {F E M : Type 0} (build : Config F → Result E M) where
  -- The first generation has the compiled configuration and its hosts.
  start-built :
      (cfg : Config F) (g : Generations.Gateway M)
      → Generations.start build cfg ≡ ok g
      → (build cfg ≡ ok g.mux) × (g.hosts ≡ hosts cfg)
  unfolding Generations.start store_hosts
  start-built cfg g h = elim (Result-cases (build cfg)) [
    | inl (mux, built) ↦ (ground arith, ground arith)
    | inr (e, fails) ↦ absurd (ground arith)
  ]

module _ {F E M X R : Type 0} (ip : NetIp) (load : String → Result ConfigError (Config F))
    (new_exporter : String → Result String X) (new_resource : String → Result String R)
    (build : ResolvedOptions → Config F → Result E M) (watched : String → Option FileInfo) where
  -- What New found and made on the way.
  pub record IsBuilt (path : String) (opts : Options) (g : Started F E M X R ip) : Type 0 where
    pub cfg : Config F
    pub was_loaded : load path ≡ ok cfg
    pub trusts : parse ip opts.trusted_proxies ≡ ok g.proxies
    pub traces :
        new_tracer_provider new_exporter new_resource opts.otlp_endpoint (resolve_service_name opts)
        ≡ ok g.provider
    pub routes : build (resolve_options opts) cfg ≡ ok g.gateway.mux
    pub knows : g.gateway.hosts ≡ hosts cfg
    pub watches : g.watcher ≡ new_watcher (watched path)
    pub rebuilds : g.rebuild ≡ build (resolve_options opts)
    pub polls : IsPositive g.poll_interval

  -- A gateway that New returns was made from a configuration that loaded, from trusted proxies that
  -- parse and from the resolved options; it knows the hosts of that configuration and no others, and
  -- its watcher, which saw the file as it was then, polls at a positive interval and compiles with the
  -- same options.
  pub new-IsBuilt :
      (path : String) (opts : Options) (g : Started F E M X R ip)
      → new ip load new_exporter new_resource build watched path opts ≡ ok g
      → IsBuilt path opts g
  unfolding new
  new-IsBuilt path opts g h =
      let (cfg, loads, h1) = >>=-eq-ok (tagged config_failed (load path)) _ h in
      let (proxies, trusted, h2) =
        >>=-eq-ok (tagged bad_proxies (parse ip opts.trusted_proxies)) _ h1 in
      let (provider, traced, h3) =
        >>=-eq-ok
          (tagged tracing_failed (
            new_tracer_provider new_exporter new_resource opts.otlp_endpoint
              (resolve_service_name opts)))
          _ h2 in
      let (gw, started, h4) =
        >>=-eq-ok (tagged mux_failed (Generations.start (build (resolve_options opts)) cfg)) _ h3 in
      let first =
        ok-tagged mux_failed (Generations.start (build (resolve_options opts)) cfg) gw started in
      let positive = (resolve_options-IsSane opts).1 in
      subst (IsBuilt path opts) (ok_same h4) (record {
        cfg = cfg;
        was_loaded = ok-tagged config_failed (load path) cfg loads;
        trusts = ok-tagged bad_proxies (parse ip opts.trusted_proxies) proxies trusted;
        traces = ok-tagged tracing_failed _ provider traced;
        routes = (start-built (build (resolve_options opts)) cfg gw first).0;
        knows = (start-built (build (resolve_options opts)) cfg gw first).1;
        watches = refl;
        rebuilds = refl;
        polls = positive;
      })
