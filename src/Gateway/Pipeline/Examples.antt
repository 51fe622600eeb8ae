-- ===== src/Gateway/Pipeline/Examples.antt =====
-- Requests that a gateway of gateway/gateway.go refuses.
use dealer.Base.{ℕ, ◌≡◌, refl, Bool, true, false, Option, none, some, [], ◌∷◌, pos}
use dealer.ClientIp as ClientIp
use dealer.ClientIp.{NetIp}
use dealer.Gateway.Pipeline.{State, serve, handler_over}
use dealer.Gateway.Pipeline.Access.{serve-unauthorized}
use dealer.Http.Header as Header
use dealer.Http.Writer.{write, write_header, http_error}
use dealer.Metrics as Metrics
use dealer.Metrics.{Instruments}
use dealer.Plugin.AddHeader.{add_header_plugin}
use dealer.Plugin.Contract.{Handler, chain}
use dealer.Plugin.HttpLog.{wrap_http_log}
use dealer.Plugin.JwtAuth.{extract_token, jwt_auth_plugin}
use dealer.Plugin.JwtAuth.Access.{IsAccepted}
use dealer.Plugin.Registry.{Built}
use dealer.Plugin.SizeLimit.{request_size_limiting_plugin}
use dealer.Proxy.Origin.{available}
use dealer.Tracing as Tracing
use dealer.Tracing.Otel.{span_middleware}
use dealer.Gateway.Pipeline.Sample.{
  numbers, surroundings, auth, guarded_shop, to_shop, missing, env, request,
}

-- An origin is reached with the good token only; the recorder counts both answers.
statuses :
    ((serve numbers surroundings to_shop missing none false
        (request "Bearer good")
        env).state.observed
      ≡ 200 ∷ [])
    × ((serve numbers surroundings to_shop missing none false
          (request "Bearer bad")
          env).state.observed
        ≡ 401 ∷ [])
unfolding serve ClientIp.middleware Tracing.middleware span_middleware Metrics.wrap
    Tracing.preserve_inbound Header.lookup Header.canonical Header.insert chain
    request_size_limiting_plugin wrap_http_log jwt_auth_plugin extract_token add_header_plugin
    available write write_header http_error
statuses = (refl, refl)

token_bad : extract_token (request "Bearer bad") ≡ "bad"
unfolding extract_token Header.lookup Header.canonical
token_bad = refl

none_not_some : ◌≡◌ {A = Option Bool} none (some true) → ⊥
none_not_some h = cc

not-IsAccepted : ¬ (IsAccepted surroundings.jwt_parse auth (request "Bearer bad"))
not-IsAccepted = λ accepted. none_not_some (rw token_bad at accepted.1)

abbrev nothing_else : ℕ → Handler (State numbers surroundings)
nothing_else j r e = e

serve-unauthorized_example :
    serve numbers surroundings to_shop missing none false (request "Bearer bad") env
    ≡ handler_over numbers surroundings to_shop missing none false nothing_else
        (request "Bearer bad")
        env
serve-unauthorized_example =
    serve-unauthorized numbers surroundings auth 0 guarded_shop
      (Built.request_size_limiting (record { max_bytes = pos 100 }) ∷ Built.http_log ∷ [])
      (Built.add_header (record { headers = ("X-Env", "test") ∷ [] }) ∷ []) refl (refl, (refl, tt))
      to_shop missing none false (request "Bearer bad") env (λ q method path. refl) not-IsAccepted
      nothing_else
