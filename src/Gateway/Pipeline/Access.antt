-- ===== src/Gateway/Pipeline/Access.antt =====
-- Who reaches the origins of a service that gateway/gateway.go guards by jwt_auth.
use dealer.Base.{
  ℕ, ◌≡◌, refl, ap, sym, subst, ◌∙◌, Bool, true, Option, none, some, List, ◌∷◌, ◌++◌, String,
  is_empty, Bool-cases, inl, inr, All, ◌≢◌,
}
use dealer.ClientIp as ClientIp
use dealer.ClientIp.{NetIp, Resolver}
use dealer.Gateway.Assembly.{ServiceHandler}
use dealer.Gateway.Pipeline.{
  Outside, State, plugins_from, service_handler, dispatch, handler_over, serve, proxy_handler,
}
use dealer.Gateway.Pipeline.Guarding.{Refused, Agree, keeps_headers, plugins_from-Agree}
use dealer.Http.Header as Header
use dealer.Http.Header.{canonical, lookup-insert, first}
use dealer.Http.Request.{Request}
use dealer.Http.Writer.{status_writer, on_top}
use dealer.Metrics as Metrics
use dealer.Plugin.Contract.{Env, Handler, chain, on_writer}
use dealer.Plugin.JwtAuth.{JwtAuth, extract_token, key_for}
use dealer.Plugin.Registry.{Built}
use dealer.Plugin.Values.{Float}
use dealer.Tracing as Tracing
use dealer.Tracing.Otel.{Tracer, span_middleware}

get-put_id :
    (id : String) (h : Header.Header)
    → Header.get (Header.put "X-Request-Id" id h) "Authorization" ≡ Header.get h "Authorization"
unfolding canonical
get-put_id id h = ap first (lookup-insert "X-Request-Id" "Authorization" _ h)

-- The token of a request with another request id is the same.
extract_token-put_id :
    (r : Request) (id : String)
    → extract_token (record r { header = Header.put "X-Request-Id" id r.header }) ≡ extract_token r
unfolding extract_token
extract_token-put_id r id = rw (get-put_id id r.header)

module _ (jwt_parse : String → (Bool → Option String) → Option Bool) (auth : JwtAuth) where
  Refused-token :
      (q r : Request)
      → extract_token q ≡ extract_token r
      → Refused jwt_parse auth r
      → Refused jwt_parse auth q
  Refused-token q r e = subst (λ t. ¬ ((t ≢ "") × (jwt_parse t (key_for auth) ≡ some true))) (sym e)

  preserved-Agree :
      {S : Type 0} (inbound : Option String) (f g : Handler S)
      → Agree jwt_parse auth f g
      → Agree jwt_parse auth (Tracing.preserved inbound f) (Tracing.preserved inbound g)
  preserved-Agree none f g same r e h = same r e h
  preserved-Agree (some inbound) f g same r e h = elim (Bool-cases (is_empty inbound)) [
    | inl blank ↦ rw blank (same r e h)
    | inr given ↦ rw given (
        same (record r { header = Header.put "X-Request-Id" inbound r.header }) e
          (Refused-token _ r (extract_token-put_id r inbound) h))
  ]

  preserve_inbound-Agree :
      {S : Type 0} (f g : Handler S)
      → Agree jwt_parse auth f g
      → Agree jwt_parse auth (Tracing.preserve_inbound f) (Tracing.preserve_inbound g)
  unfolding Tracing.preserve_inbound
  preserve_inbound-Agree f g same r e h = preserved-Agree r.inbound_id f g same r e h

  wrap-Agree :
      {S : Type 0} (m : Metrics.Instruments S) (service : String) (f g : Handler S)
      → Agree jwt_parse auth f g
      → Agree jwt_parse auth (Metrics.wrap m service f) (Metrics.wrap m service g)
  unfolding Metrics.wrap
  wrap-Agree m service f g same r e h = rw (same r (on_writer (on_top (status_writer 200)) e) h)

-- A request that a middleware passes on, as far as the mux and the guard look at it.
abbrev pub Follows : Request → Request → Type 0
Follows q r =
    (q.method ≡ r.method)
    × (q.path ≡ r.path)
    × (extract_token q ≡ extract_token r)
    × (q.content_length ≡ r.content_length)

module _ {S : Type 0} (f g : Handler S) (r : Request)
    (same : (q : Request) (e : Env S) → Follows q r → f q e ≡ g q e) where
  span-same : (t : Tracer S) (e : Env S) → span_middleware t f r e ≡ span_middleware t g r e
  unfolding span_middleware
  span-same t e = rw (same r _ (refl, refl, refl, refl))

  tracing-same :
      (rand : S → Option (List ℕ)) (trust : Bool) (e : Env S)
      → Tracing.middleware rand trust f r e ≡ Tracing.middleware rand trust g r e
  unfolding Tracing.middleware extract_token
  tracing-same rand trust e = same _ _ (refl, refl, extract_token-put_id r _, refl)

  client_ip-same :
      (ip : NetIp) (res : Option (Resolver ip)) (e : Env S)
      → ClientIp.middleware ip res f r e ≡ ClientIp.middleware ip res g r e
  unfolding ClientIp.middleware extract_token
  client_ip-same ip res e = same _ _ (refl, refl, refl, refl)

Follows-trans : (p q r : Request) → Follows p q → Follows q r → Follows p r
Follows-trans p q r a b = (a.0 ∙ b.0, a.1 ∙ b.1, a.2 ∙ b.2, a.3 ∙ b.3)

-- Two handlers that agree on every request that the middlewares may make of this one are not told
-- apart behind them.
pub middlewares-same :
    {S : Type 0} (f g : Handler S) (ip : NetIp) (res : Option (Resolver ip))
    (rand : S → Option (List ℕ)) (trust : Bool) (t : Tracer S) (r : Request) (e : Env S)
    → ((q : Request) (d : Env S) → Follows q r → f q d ≡ g q d)
    → ClientIp.middleware ip res (Tracing.middleware rand trust (span_middleware t f)) r e
      ≡ ClientIp.middleware ip res (Tracing.middleware rand trust (span_middleware t g)) r e
middlewares-same f g ip res rand trust t r e same =
    client_ip-same _ _ r
      (λ q d follows.
        tracing-same _ _ q
          (λ p c near.
            span-same _ _ p
              (λ o b nearer.
                same o b (Follows-trans o q r (Follows-trans o p q nearer near) follows))
              t c)
          rand trust d)
      ip res e

module _ (fl : Float) {D M : Type 0} (out : Outside fl.F D M) (auth : JwtAuth) (j : ℕ)
    (h : ServiceHandler fl) (before behind : List (Built fl))
    (guarded : h.plugins ≡ before ++ Built.jwt_auth auth ∷ behind)
    (keeps : All (λ p. keeps_headers p ≡ true) before) where
  chain-guarded :
      (f g : Handler (State fl out))
      → Agree out.jwt_parse auth
          (chain (plugins_from fl out j 0 h.plugins) f)
          (chain (plugins_from fl out j 0 h.plugins) g)
  chain-guarded f g =
      subst
        (λ ps.
          Agree out.jwt_parse auth (chain (plugins_from fl out j 0 ps) f)
            (chain (plugins_from fl out j 0 ps) g))
        (sym guarded) (plugins_from-Agree fl out auth j 0 before behind f g keeps)

  service_handler-Agree :
      (f g : Handler (State fl out))
      → Agree out.jwt_parse auth (service_handler fl out j h f) (service_handler fl out j h g)
  unfolding service_handler
  service_handler-Agree f g = elim (Bool-cases h.preserve_request_id) [
    | inl preserves ↦ rw preserves (
        wrap-Agree out.jwt_parse auth out.instruments h.service _ _
          (preserve_inbound-Agree out.jwt_parse auth _ _ (chain-guarded f g)))
    | inr replaces ↦
        rw replaces
          (wrap-Agree out.jwt_parse auth out.instruments h.service _ _ (chain-guarded f g))
  ]

  module _ (route : Request → Option (ℕ × ServiceHandler fl))
      (not_routed : Handler (State fl out)) where
    dispatch-Agree :
        (final : ℕ → Handler (State fl out)) (q : Request) (e : Env (State fl out))
        → route q ≡ some (j, h)
        → Refused out.jwt_parse auth q
        → dispatch fl out route not_routed (proxy_handler fl out) q e
          ≡ dispatch fl out route not_routed final q e
    unfolding dispatch
    dispatch-Agree final q e routed refused =
        rw (routed, dispatch) (service_handler-Agree (proxy_handler fl out j) (final j) q e refused)

    -- Take a request that is routed to a service with a jwt_auth plugin, in front of which no
    -- add_header is declared. If its token is missing or not accepted, then the gateway does with it
    -- what it would do if any other handler stood in the place of the load balancers: no origin is
    -- contacted, and no plugin, middleware or preserved request id opens a way around the guard.
    pub serve-unauthorized :
        (proxies : Option (Resolver out.ip)) (trust : Bool) (r : Request) (e : Env (State fl out))
        → ((q : Request) → q.method ≡ r.method → q.path ≡ r.path → route q ≡ some (j, h))
        → Refused out.jwt_parse auth r
        → (final : ℕ → Handler (State fl out))
        → serve fl out route not_routed proxies trust r e
          ≡ handler_over fl out route not_routed proxies trust final r e
    unfolding serve handler_over
    serve-unauthorized proxies trust r e routed refused final =
        middlewares-same _ _ out.ip proxies out.rand trust out.tracer r e (λ o b whole.
          dispatch-Agree final o b (routed o whole.0 whole.1)
            (Refused-token out.jwt_parse auth o r whole.2 refused))
