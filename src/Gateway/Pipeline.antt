-- ===== src/Gateway/Pipeline.antt =====
-- gateway/gateway.go: the handler of a running gateway, composed of the middlewares, the recorder,
-- the plugins and the load balancer. The state of the handlers is what the services keep between
-- requests. http.ServeMux is a parameter: the service that it routes a request to, by its number, and
-- its own answer where there is none. So is an attempt at an origin, which gives what the origin's
-- reverse proxy writes, or an error.
pub mod Guarding
pub mod Access
pub mod Oversize
pub mod Sample
mod Examples
use dealer.Base.{
  ℕ, ◌+◌, ◌==◌, Bool, Option, none, some, List, [], ◌∷◌, String, ℤ, if◌then◌else◌, Result, ok, err,
}
use dealer.ClientIp as ClientIp
use dealer.ClientIp.{NetIp, Resolver}
use dealer.Gateway.Assembly.{ServiceHandler}
use dealer.Http.Request.{Request}
use dealer.Http.Writer.{Writer}
use dealer.Metrics as Metrics
use dealer.Plugin.AddHeader.{add_header_plugin}
use dealer.Plugin.Contract.{Env, Handler, Plugin, chain}
use dealer.Plugin.Cors.{cors_plugin}
use dealer.Plugin.HttpLog.{BufWriter, wrap_http_log}
use dealer.Plugin.JwtAuth.{jwt_auth_plugin}
use dealer.Plugin.RateLimit.{MemoryStore, Stores, wrap_rate_limiting}
use dealer.Plugin.Registry.{Built}
use dealer.Plugin.ResponseHeaders.{response_headers_plugin}
use dealer.Plugin.SizeLimit.{request_size_limiting_plugin}
use dealer.Plugin.Values.{Float}
use dealer.Proxy.LoadBalancer.{RoundRobinProxy, RoundRobinOrigin, serve_http}
use dealer.Proxy.ReverseProxy.{write_bad_gateway}
use dealer.Tracing as Tracing
use dealer.Tracing.Otel.{Tracer, span_middleware}

-- What a service keeps: its load balancer, and by the position of a plugin the store of a
-- rate_limiting and the buffer of an http_log.
pub record ServiceState (F : Type 0) : Type 0 where
  pub proxy : RoundRobinProxy
  pub stores : ℕ → MemoryStore F
  pub logs : ℕ → BufWriter

-- What the process keeps between two hot reloads: the services, the embedded database, what the
-- metrics and the tracing hold, and the clock. A reload makes services with a new state.
pub record World (F D M : Type 0) : Type 0 where
  pub services : ℕ → ServiceState F
  pub database : D
  pub observed : M
  pub time : ℕ

abbrev pub update : {A : Type 0} → (ℕ → A) → ℕ → A → ℕ → A
update f i a j = if j == i then a else f j

-- What the handlers use of libraries and of their surroundings.
pub record Outside (F D M : Type 0) : Type 1 where
  pub ip : NetIp
  pub jwt_parse : String → (Bool → Option String) → Option Bool
  pub incr : String → D → D × Option ℤ
  pub expire : String → D → D × Bool
  pub format_time : ℕ → String
  pub rand : World F D M → Option (List ℕ)
  pub instruments : Metrics.Instruments (World F D M)
  pub tracer : Tracer (World F D M)
  -- One attempt at an origin.
  pub dial : Request → RoundRobinOrigin → Result String (Writer → Writer)
  -- json.NewEncoder's output for a map.
  pub encode : List (String × String) → String
  -- How long after the request a failed attempt is over.
  pub delay : Request → ℕ

module _ (fl : Float) {D M : Type 0} (out : Outside fl.F D M) where
  abbrev pub State : Type 0
  State = World fl.F D M

  abbrev pub with_service : ℕ → ServiceState fl.F → State → State
  with_service j s w = record w { services = update w.services j s }

  abbrev pub stores_at : ℕ → ℕ → State → Stores fl out.incr out.expire
  stores_at j i w = record { memory_store = (w.services j).stores i; database = w.database }

  abbrev pub with_stores : ℕ → ℕ → Stores fl out.incr out.expire → State → State
  with_stores j i st w = record w {
    services = update w.services j (record {
      proxy = (w.services j).proxy;
      stores = update (w.services j).stores i st.memory_store;
      logs = (w.services j).logs;
    });
    database = st.database;
  }

  abbrev pub with_log : ℕ → ℕ → BufWriter → State → State
  with_log j i b w =
      with_service j
        (record {
          proxy = (w.services j).proxy;
          stores = (w.services j).stores;
          logs = update (w.services j).logs i b;
        })
        w

  -- A built plugin at the position `i` of the service `j`, as the chain calls it.
  unfoldable pub plugin_of : ℕ → ℕ → Built fl → Plugin State
  plugin_of j i (Built.add_header p) = add_header_plugin p
  plugin_of j i Built.http_log = record {
    name = "http_log";
    wrap = wrap_http_log (λ w. (w.services j).logs i) (with_log j i) (λ w. out.format_time w.time);
  }
  plugin_of j i (Built.request_size_limiting p) = request_size_limiting_plugin p
  plugin_of j i (Built.jwt_auth p) = jwt_auth_plugin out.jwt_parse p
  plugin_of j i (Built.cors p) = cors_plugin p
  plugin_of j i (Built.response_headers p) = response_headers_plugin p
  plugin_of j i (Built.rate_limiting p) = record {
    name = "rate_limiting";
    wrap =
        wrap_rate_limiting fl out.incr out.expire (stores_at j i) (with_stores j i) (λ w. w.time)
          (ClientIp.from_request out.ip) p;
  }

  unfoldable pub plugins_from : ℕ → ℕ → List (Built fl) → List (Plugin State)
  unfolding plugin_of
  plugins_from j i [] = []
  plugins_from j i (p ∷ ps) = plugin_of j i p ∷ plugins_from j (i + 1) ps

  -- What is written to the client; a panic of the load balancer writes nothing.
  abbrev pub answered : Option (Writer → Writer) → Writer → Writer
  answered none w = w
  answered (some f) w = f w

  -- The load balancer of a service as a handler.
  unfoldable pub proxy_handler : ℕ → Handler State
  unfolding write_bad_gateway serve_http
  proxy_handler j r e =
      let s = e.state.services j in
      let outcome =
        serve_http (write_bad_gateway out.encode) (out.dial r) s.proxy e.state.time
          (e.state.time + out.delay r) in
      record {
        writer = answered outcome.1 e.writer;
        state =
            with_service j (record { proxy = outcome.0; stores = s.stores; logs = s.logs }) e.state;
      }

  -- The handler that buildMux returns for a service, in front of `final`.
  unfoldable pub service_handler : ℕ → ServiceHandler fl → Handler State → Handler State
  unfolding plugins_from
  service_handler j h final =
      let handler = chain (plugins_from j 0 h.plugins) final in
      let preserved = if h.preserve_request_id then Tracing.preserve_inbound handler else handler in
      Metrics.wrap out.instruments h.service preserved

  module _ (route : Request → Option (ℕ × ServiceHandler fl)) (not_routed : Handler State) where
    abbrev pub routed_to : (ℕ → Handler State) → Option (ℕ × ServiceHandler fl) → Handler State
    routed_to final none = not_routed
    routed_to final (some (j, h)) = service_handler j h (final j)

    -- The mux, with `final` in the place of each service's load balancer.
    unfoldable pub dispatch : (ℕ → Handler State) → Handler State
    unfolding service_handler
    dispatch final r e = routed_to final (route r) r e

    -- gw.handler, over the mux above.
    unfoldable pub handler_over :
        Option (Resolver out.ip) → Bool → (ℕ → Handler State) → Handler State
    unfolding dispatch
    handler_over proxies trust final =
        ClientIp.middleware out.ip proxies
          (Tracing.middleware out.rand trust (span_middleware out.tracer (dispatch final)))

    -- Gateway.ServeHTTP
    unfoldable pub serve : Option (Resolver out.ip) → Bool → Handler State
    unfolding handler_over proxy_handler
    serve proxies trust = handler_over proxies trust proxy_handler
