-- ===== src/Gateway/Pipeline/Guarding.antt =====
-- Which plugins of a service in gateway/gateway.go let a handler behind them be reached without a
-- token that is accepted.
use dealer.Base.{
  ℕ, ◌+◌, ◌≡◌, ap, sym, ◌∙◌, Bool, true, false, Option, List, [], ◌∷◌, ◌++◌, String, is_empty,
  ltb_ℤ, ℤ, Bool-cases, inl, inr, All,
}
use dealer.Gateway.Pipeline.{Outside, State, plugin_of, plugins_from}
use dealer.Http.Header as Header
use dealer.Http.Request.{Request}
use dealer.Plugin.Contract.{Env, Handler, chain}
use dealer.Plugin.Contract.Chaining.{chain-cons}
use dealer.Plugin.Cors.{Cors, wrap_cors, is_preflight, cors_plugin}
use dealer.Plugin.HttpLog.{BufWriter, wrap_http_log}
use dealer.Plugin.JwtAuth.{JwtAuth, extract_token, wrap_jwt_auth, jwt_auth_plugin}
use dealer.Plugin.JwtAuth.Access.{IsAccepted, wrap_jwt_auth-refused}
use dealer.Plugin.RateLimit.{RateLimiting, Stores, allow, wrap_rate_limiting}
use dealer.Plugin.Registry.{Built}
use dealer.Plugin.ResponseHeaders.{wrap_response_headers, response_headers_plugin}
use dealer.Plugin.SizeLimit.{
  RequestSizeLimiting, wrap_request_size_limiting, request_size_limiting_plugin,
}
use dealer.Plugin.Values.{Float}
use dealer.Http.Writer.{ResponseHeaders}

-- A request whose token the guard does not accept.
abbrev pub Refused : (String → (Bool → Option String) → Option Bool) → JwtAuth → Request → Type 0
Refused jwt_parse auth r = ¬ (IsAccepted jwt_parse auth r)

module _ (jwt_parse : String → (Bool → Option String) → Option Bool) (auth : JwtAuth)
    {S : Type 0} where
  -- Two handlers that do the same with every such request.
  abbrev pub Agree : Handler S → Handler S → Type 0
  Agree f g = (r : Request) (e : Env S) → Refused jwt_parse auth r → f r e ≡ g r e

  abbrev pub Respects : (Handler S → Handler S) → Type 0
  Respects wrap = (f g : Handler S) → Agree f g → Agree (wrap f) (wrap g)

  size_limit-Respects : (p : RequestSizeLimiting) → Respects (wrap_request_size_limiting p)
  unfolding wrap_request_size_limiting extract_token
  size_limit-Respects p f g same r e h = elim (Bool-cases (ltb_ℤ p.max_bytes r.content_length)) [
    | inl large ↦ rw large
    | inr fits ↦ rw fits (same (record r { body_limits = p.max_bytes ∷ r.body_limits }) e h)
  ]

  response_headers-Respects : (p : ResponseHeaders) → Respects (wrap_response_headers p)
  unfolding wrap_response_headers
  response_headers-Respects p f g same r e h = rw (same r _ h)

  http_log-Respects :
      (read : S → BufWriter) (put : BufWriter → S → S) (time : S → String)
      → Respects (wrap_http_log read put time)
  unfolding wrap_http_log
  http_log-Respects read put time f g same r e h = same r _ h

  cors-Respects : (p : Cors) → Respects (wrap_cors p)
  unfolding wrap_cors
  cors-Respects p f g same r e h = elim (Bool-cases (is_preflight r)) [
    | inl preflight ↦ rw preflight
    | inr plain ↦ elim (Bool-cases (is_empty (Header.get r.header "Origin"))) [
      | inl none_sent ↦ rw (plain, none_sent) (same r _ h)
      | inr sent ↦ rw (plain, sent) (same r _ h)
    ]
  ]

  jwt_auth-Respects : (q : JwtAuth) → Respects (wrap_jwt_auth jwt_parse q)
  unfolding wrap_jwt_auth
  jwt_auth-Respects q f g same r e h = rw (same r e h)

  -- Behind the guard itself any two handlers agree.
  guard-Agree :
      (f g : Handler S) → Agree (wrap_jwt_auth jwt_parse auth f) (wrap_jwt_auth jwt_parse auth g)
  guard-Agree f g r e h =
      wrap_jwt_auth-refused jwt_parse auth f r e h
      ∙ sym (wrap_jwt_auth-refused jwt_parse auth g r e h)

module _ (fl : Float) {D : Type 0} (incr : String → D → D × Option ℤ)
    (expire : String → D → D × Bool) where
  rate_limiting-Respects :
      {S : Type 0} (jwt_parse : String → (Bool → Option String) → Option Bool) (auth : JwtAuth)
      (read : S → Stores fl incr expire) (put : Stores fl incr expire → S → S) (clock : S → ℕ)
      (client : Request → String) (p : RateLimiting fl)
      → Respects jwt_parse auth (wrap_rate_limiting fl incr expire read put clock client p)
  unfolding wrap_rate_limiting
  rate_limiting-Respects jwt_parse auth read put clock client p f g same r e h =
      elim (Bool-cases (allow fl incr expire p (client r) (clock e.state) (read e.state)).1) [
        | inl allowed ↦ rw allowed (same r _ h)
        | inr refused ↦ rw refused
      ]

-- A plugin that does not change the headers of the request.
abbrev pub keeps_headers : {fl : Float} → Built fl → Bool
keeps_headers (Built.add_header p) = false
keeps_headers _ = true

module _ (fl : Float) {D M : Type 0} (out : Outside fl.F D M) (auth : JwtAuth) (j : ℕ) where
  plugin_of-Respects :
      (i : ℕ) (p : Built fl)
      → keeps_headers p ≡ true
      → Respects out.jwt_parse auth (plugin_of fl out j i p).wrap
  unfolding plugin_of request_size_limiting_plugin jwt_auth_plugin cors_plugin
      response_headers_plugin
  plugin_of-Respects i (Built.add_header p) h = absurd (cc)
  plugin_of-Respects i Built.http_log h = http_log-Respects out.jwt_parse auth _ _ _
  plugin_of-Respects i (Built.request_size_limiting p) h = size_limit-Respects out.jwt_parse auth p
  plugin_of-Respects i (Built.jwt_auth p) h = jwt_auth-Respects out.jwt_parse auth p
  plugin_of-Respects i (Built.cors p) h = cors-Respects out.jwt_parse auth p
  plugin_of-Respects i (Built.response_headers p) h = response_headers-Respects out.jwt_parse auth p
  plugin_of-Respects i (Built.rate_limiting p) h =
      rate_limiting-Respects fl out.incr out.expire out.jwt_parse auth _ _ _ _ p

  guard-plugin_of :
      (i : ℕ) (f g : Handler (State fl out))
      → Agree out.jwt_parse auth
          ((plugin_of fl out j i (Built.jwt_auth auth)).wrap f)
          ((plugin_of fl out j i (Built.jwt_auth auth)).wrap g)
  unfolding plugin_of jwt_auth_plugin
  guard-plugin_of i f g = guard-Agree out.jwt_parse auth f g

  -- A chain with the guard, in front of which no plugin changes the headers.
  pub plugins_from-Agree :
      (i : ℕ) (before behind : List (Built fl)) (f g : Handler (State fl out))
      → All (λ p. keeps_headers p ≡ true) before
      → Agree out.jwt_parse auth
          (chain (plugins_from fl out j i (before ++ Built.jwt_auth auth ∷ behind)) f)
          (chain (plugins_from fl out j i (before ++ Built.jwt_auth auth ∷ behind)) g)
  unfolding plugins_from
  plugins_from-Agree i [] behind f g _ r e h =
      let rest = plugins_from fl out j (i + 1) behind in
      let p = plugin_of fl out j i (Built.jwt_auth auth) in
      ap (λ k. k r e) (chain-cons p rest f)
      ∙ guard-plugin_of i (chain rest f) (chain rest g) r e h
      ∙ sym (ap (λ k. k r e) (chain-cons p rest g))
  plugins_from-Agree i (q ∷ before) behind f g (keeps, all_keep) r e h =
      let rest = plugins_from fl out j (i + 1) (before ++ Built.jwt_auth auth ∷ behind) in
      let p = plugin_of fl out j i q in
      ap (λ k. k r e) (chain-cons p rest f)
      ∙ plugin_of-Respects i q keeps (chain rest f) (chain rest g)
          (plugins_from-Agree (i + 1) before behind f g all_keep) r e h
      ∙ sym (ap (λ k. k r e) (chain-cons p rest g))
