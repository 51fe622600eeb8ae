-- ===== src/Gateway/Assembly.antt =====
-- gateway/gateway.go: buildMux. A service's handler is described by what it is assembled from: the
-- plugins in their order, the load balancer, whether the inbound request id is preserved, and the
-- service's name for the metrics; time.ParseDuration
-- and url.Parse are parameters.
pub mod Outcome
pub mod Probers
use dealer.Base.{
  ℕ, suc, ◌+◌, Bool, Option, none, some, List, [], ◌∷◌, ◌++◌, String, is_empty, append,
  if◌then◌else◌, ℤ, pos, Result, ok, err, ◌>>=◌,
}
use dealer.Config.Types.{Config, Service, PluginConfig, HealthCheckConfig}
use dealer.Gateway.Options.{ResolvedOptions}
use dealer.Plugin.Registry as Registry
use dealer.Plugin.Registry.{Built}
use dealer.Plugin.SizeLimit.{RequestSizeLimiting}
use dealer.Plugin.Values.{PluginError, Float, format_int}
use dealer.Proxy.LoadBalancer.{RoundRobinProxy, ProxyError, Url, new_origin_proxy}
use dealer.Proxy.Origin.{BreakerOptions}
use dealer.Proxy.Retry.{RetryTransport}
use dealer.Router as Router

-- A prober and its settings; its targets are the service's origins.
pub record ProberSettings : Type 0 where
  pub path : String
  pub interval : ℤ
  pub timeout : ℤ

pub record ServiceHandler (fl : Float) : Type 0 where
  pub service : String
  pub plugins : List (Built fl)
  pub proxy : RoundRobinProxy
  pub retry : RetryTransport
  pub prober : Option ProberSettings
  pub preserve_request_id : Bool

pub data BuildError : Type 0 where
  plugin_failed : String → PluginError → BuildError
  proxy_failed : ProxyError → BuildError
  bad_interval : String → BuildError

abbrev pub wrap_plugin {ℓ} : {A : Type ℓ} → String → Result PluginError A → Result BuildError A
wrap_plugin name (ok a) = ok a
wrap_plugin name (err e) = err (plugin_failed name e)

abbrev pub wrap_proxy {ℓ} : {A : Type ℓ} → Result ProxyError A → Result BuildError A
wrap_proxy (ok a) = ok a
wrap_proxy (err e) = err (proxy_failed e)

-- The origins of a service: those of the list, or the single one.
abbrev pub origins_of : List String → String → List String
origins_of [] origin_url = origin_url ∷ []
origins_of (u ∷ us) origin_url = u ∷ us

module _ (fl : Float) (getenv : String → String) (shared : Bool) (parse_url : String → Option Url)
    (parse_duration : String → Option ℤ) where
  open fl use {F}

  -- The loop over a service's plugins; the instance id is the service's name and the position.
  unfoldable pub build_plugins :
      String → ℕ → List (PluginConfig F) → Result BuildError (List (Built fl))
  build_plugins service i [] = ok []
  build_plugins service i (pc ∷ pcs) =
      wrap_plugin pc.name (
        Registry.build fl getenv shared pc.name pc.config
          (append service (append ":" (format_int (pos i)))))
      >>= λ p. build_plugins service (i + 1) pcs >>= λ ps. ok (p ∷ ps)

  abbrev pub interval_of : ResolvedOptions → String → String → Result BuildError ℤ
  interval_of opts service interval =
      if is_empty interval
      then ok opts.health_check_interval
      else elim (parse_duration interval) [ none ↦ err (bad_interval service) | some d ↦ ok d ]

  -- The prober of a service, if its path is not empty.
  unfoldable pub prober_of :
      ResolvedOptions
      → String
      → Option HealthCheckConfig
      → Result BuildError (Option ProberSettings)
  prober_of opts service none = ok none
  prober_of opts service (some h) =
      let path = if is_empty h.path then opts.health_check_path else h.path in
      interval_of opts service h.interval >>= λ interval. ok (
        if is_empty path
        then none
        else some
            (record { path = path; interval = interval; timeout = opts.health_check_timeout }))

  -- The handler of one service: the gateway's own size limit runs first.
  unfoldable pub handler_for : ResolvedOptions → Service F → Result BuildError (ServiceHandler fl)
  unfolding build_plugins prober_of
  handler_for opts svc = do
    plugins ← build_plugins svc.name 0 svc.plugins
    proxy ← wrap_proxy (
        new_origin_proxy parse_url svc.name (origins_of svc.origin_urls svc.origin_url)
          opts.unhealthy_cooldown
          (record { threshold = opts.breaker_threshold; cooldown = opts.breaker_cooldown }))
    prober ← prober_of opts svc.name svc.health_check
    ok (record {
      service = svc.name;
      plugins = Built.request_size_limiting (record { max_bytes = opts.max_body_bytes }) ∷ plugins;
      proxy = proxy;
      retry = record {
        max_attempts = opts.retry_max_attempts;
        retry_unsafe = svc.retry_unsafe_methods;
        backoff_base = opts.retry_backoff_base;
      };
      prober = prober;
      preserve_request_id = svc.preserve_request_id;
    })

  -- buildMux: the routes, each with its handler; none where mux.Handle panics.
  unfoldable pub build_mux :
      (List String → String → Bool)
      → ResolvedOptions
      → Config F
      → Option (Result (String × BuildError) (List (String × ServiceHandler fl)))
  unfolding handler_for
  build_mux accepts opts cfg = Router.build accepts (handler_for opts) cfg.services
