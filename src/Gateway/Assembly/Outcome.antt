-- ===== src/Gateway/Assembly/Outcome.antt =====
-- What buildMux of gateway/gateway.go assembles for a service.
use dealer.Base.{
  ℕ, ◌+◌, ◌≡◌, ap, sym, ◌∙◌, List, [], ◌∷◌, String, ℤ, Result, ok, err, >>=-eq-ok, Option,
  Result-cases, inl, inr, Bool, arith,
}
use mathlib.Core.Path.{ap₂}
use dealer.Config.Types.{Service, PluginConfig}
use dealer.Gateway.Options.{ResolvedOptions}
use dealer.Gateway.Assembly.{
  ServiceHandler, ProberSettings, BuildError, wrap_plugin, build_plugins, handler_for, wrap_proxy,
  origins_of, prober_of,
}
use dealer.Plugin.Registry.{Built, name_of}
use dealer.Plugin.Registry.Building.{build-name_of}
use dealer.Plugin.Values.{PluginError, Float}
use dealer.Proxy.LoadBalancer.{Url, RoundRobinProxy, new_origin_proxy}

abbrev pub names {ℓ} : {A : Type ℓ} → (A → String) → List A → List String
names f [] = []
names f (x ∷ xs) = f x ∷ names f xs

wrapped :
    {A : Type 0} (name : String) (m : Result PluginError A) (a : A)
    → wrap_plugin name m ≡ ok a
    → m ≡ ok a
wrapped name (ok b) a h = cc
wrapped name (err e) a h = cc

module _ (fl : Float) (getenv : String → String) (shared : Bool) (parse_url : String → Option Url)
    (parse_duration : String → Option ℤ) where
  open fl use {F}

  build_plugins-names :
      (service : String) (i : ℕ) (pcs : List (PluginConfig F)) (ps : List (Built fl))
      → build_plugins fl getenv shared parse_url parse_duration service i pcs ≡ ok ps
      → names (λ p. name_of p) ps ≡ names (λ pc. pc.name) pcs
  unfolding build_plugins
  build_plugins-names service i [] ps h = ground arith
  build_plugins-names service i (pc ∷ pcs) ps h =
      let (p, one, rest) = >>=-eq-ok _ _ h in
      let (later, others, same) =
        >>=-eq-ok (build_plugins fl getenv shared parse_url parse_duration service (i + 1) pcs)
          (λ qs. ok (p ∷ qs)) rest in
      let whole : p ∷ later ≡ ps = cc in
      let first = build-name_of fl getenv shared pc.name pc.config _ p (wrapped pc.name _ p one) in
      ap (names (λ q. name_of q)) (sym whole)
      ∙ ap₂ (λ n ns. n ∷ ns) first (build_plugins-names service (i + 1) pcs later others)

  abbrev proxy_of : ResolvedOptions → Service F → Result BuildError RoundRobinProxy
  proxy_of opts svc = wrap_proxy (
      new_origin_proxy parse_url svc.name (origins_of svc.origin_urls svc.origin_url)
        opts.unhealthy_cooldown
        (record { threshold = opts.breaker_threshold; cooldown = opts.breaker_cooldown }))

  abbrev checks_of : ResolvedOptions → Service F → Result BuildError (Option ProberSettings)
  checks_of opts svc =
      prober_of fl getenv shared parse_url parse_duration opts svc.name svc.health_check

  -- If it can be built, the handler of a service has the gateway's own size limit as its first plugin, whatever the
  -- service declares, and behind it the declared plugins, in their order and each once; it carries
  -- the service's name and its retry and request-id settings.
  pub handler_for-plugins :
      (opts : ResolvedOptions) (svc : Service F) (h : ServiceHandler fl)
      → handler_for fl getenv shared parse_url parse_duration opts svc ≡ ok h
      → (declared : List (Built fl)) × (h.plugins
          ≡ Built.request_size_limiting (record { max_bytes = opts.max_body_bytes }) ∷ declared)
        × (names (λ q. name_of q) declared ≡ names (λ pc. pc.name) svc.plugins)
        × (h.service ≡ svc.name)
        × (h.preserve_request_id ≡ svc.preserve_request_id)
        × (h.retry.retry_unsafe ≡ svc.retry_unsafe_methods)
  unfolding handler_for
  handler_for-plugins opts svc h e =
      let (declared, one, rest) = >>=-eq-ok _ _ e in
      elim (Result-cases (proxy_of opts svc)) [
        | inr (bad, no_proxy) ↦ ground arith
        | inl (proxy, two) ↦ elim (Result-cases (checks_of opts svc)) [
          | inr (bad, no_prober) ↦ ground arith
          | inl (prober, three) ↦ (
            declared,
            ground arith,
            build_plugins-names svc.name 0 svc.plugins declared one,
            ground arith,
            ground arith,
            ground arith,
          )
        ]
      ]
