-- ===== src/Gateway/Pipeline/Oversize.antt =====
-- What a running gateway of gateway/gateway.go does with a request whose declared length is above its
-- own limit.
use dealer.Base.{
  ℕ, ◌≡◌, refl, ap, ◌∙◌, inl, inr, Bool, true, Option, none, some, List, ◌∷◌, String, ltb_ℤ, ℤ,
  Bool-cases, is_empty, ok,
}
use dealer.ClientIp as ClientIp
use dealer.ClientIp.{Resolver}
use dealer.Config.Types.{Service}
use dealer.Gateway.Assembly.{ServiceHandler, handler_for}
use dealer.Gateway.Assembly.Outcome.{handler_for-plugins}
use dealer.Gateway.Options.{ResolvedOptions}
use dealer.Gateway.Pipeline.{
  Outside, State, plugin_of, plugins_from, service_handler, dispatch, handler_over, serve,
  proxy_handler,
}
use dealer.Gateway.Pipeline.Access.{middlewares-same}
use dealer.Http.Request.{Request}
use dealer.Http.Writer.{write_header}
use dealer.Metrics as Metrics
use dealer.Plugin.Contract.{Env, Handler, chain, on_writer}
use dealer.Plugin.Contract.Chaining.{chain-cons}
use dealer.Plugin.Registry.{Built}
use dealer.Plugin.SizeLimit.{wrap_request_size_limiting, request_size_limiting_plugin}
use dealer.Plugin.Values.{Float}
use dealer.Proxy.LoadBalancer.{Url}
use dealer.Tracing as Tracing
use dealer.Tracing.Otel.{span_middleware}

-- A 413 with no body.
abbrev pub too_large : {S : Type 0} → Handler S
too_large r e = on_writer (write_header 413) e

module _ (fl : Float) {D M : Type 0} (out : Outside fl.F D M) (j : ℕ) (h : ServiceHandler fl)
    (limit : ℤ) (rest : List (Built fl))
    (limited : h.plugins ≡ Built.request_size_limiting (record { max_bytes = limit }) ∷ rest) where
  chain-too_large :
      (final : Handler (State fl out)) (q : Request) (e : Env (State fl out))
      → ltb_ℤ limit q.content_length ≡ true
      → chain (plugins_from fl out j 0 h.plugins) final q e ≡ too_large q e
  unfolding plugins_from plugin_of request_size_limiting_plugin wrap_request_size_limiting
  chain-too_large final q e above =
      rw (limited, plugins_from)
        (ap (λ k. k q e)
            (chain-cons
              (plugin_of fl out j 0 (Built.request_size_limiting (record { max_bytes = limit }))) _
              final)
          ∙ rw above refl)

  preserved-too_large :
      (inbound : Option String) (final : Handler (State fl out)) (q : Request)
      (e : Env (State fl out))
      → ltb_ℤ limit q.content_length ≡ true
      → Tracing.preserved inbound (chain (plugins_from fl out j 0 h.plugins) final) q e
        ≡ too_large q e
  preserved-too_large none final q e above = chain-too_large final q e above
  preserved-too_large (some inbound) final q e above = elim (Bool-cases (is_empty inbound)) [
    | inl blank ↦ rw blank (chain-too_large final q e above)
    | inr given ↦ rw given (chain-too_large final _ e above)
  ]

  service_handler-too_large :
      (final : Handler (State fl out)) (q : Request) (e : Env (State fl out))
      → ltb_ℤ limit q.content_length ≡ true
      → service_handler fl out j h final q e ≡ Metrics.wrap out.instruments h.service too_large q e
  unfolding service_handler Metrics.wrap Tracing.preserve_inbound
  service_handler-too_large final q e above = elim (Bool-cases h.preserve_request_id) [
    | inl preserves ↦ rw preserves (rw (preserved-too_large q.inbound_id final q _ above) refl)
    | inr replaces ↦ rw replaces (rw (chain-too_large final q _ above) refl)
  ]

module _ (fl : Float) {D M : Type 0} (out : Outside fl.F D M) (getenv : String → String)
    (shared : Bool) (parse_url : String → Option Url) (parse_duration : String → Option ℤ)
    (opts : ResolvedOptions) (svc : Service fl.F) (h : ServiceHandler fl)
    (built : handler_for fl getenv shared parse_url parse_duration opts svc ≡ ok h) where
  -- Take a request that is routed to a service, with a declared length above the gateway's own limit.
  -- Whatever the service declares, the middlewares run, and behind them it is answered by 413 and
  -- counted for the service, and that is all: no plugin of the service sees it, its access log and
  -- its rate limits included, and no origin is contacted.
  pub serve-too_large :
      (j : ℕ) (route : Request → Option (ℕ × ServiceHandler fl))
      (not_routed : Handler (State fl out)) (proxies : Option (Resolver out.ip)) (trust : Bool)
      (r : Request) (e : Env (State fl out))
      → ((q : Request) → q.method ≡ r.method → q.path ≡ r.path → route q ≡ some (j, h))
      → ltb_ℤ opts.max_body_bytes r.content_length ≡ true
      → serve fl out route not_routed proxies trust r e
        ≡ ClientIp.middleware out.ip proxies
            (Tracing.middleware out.rand trust
              (span_middleware out.tracer (Metrics.wrap out.instruments svc.name too_large)))
            r
            e
  unfolding serve handler_over dispatch
  serve-too_large j route not_routed proxies trust r e routed above =
      let (declared, limited, named, service, preserves, retries) =
        handler_for-plugins fl getenv shared parse_url parse_duration opts svc h built in
      middlewares-same _ _ out.ip proxies out.rand trust out.tracer r e (λ q d follows.
        rw (routed q follows.0 follows.1) (
          service_handler-too_large fl out j h opts.max_body_bytes declared limited
            (proxy_handler fl out j) q d (ap (ltb_ℤ opts.max_body_bytes) follows.3 ∙ above)
          ∙ ap (λ n. Metrics.wrap out.instruments n too_large q d) service))
