-- ===== src/Plugin/Registry.antt =====
-- gateway/internal/plugin/registry.go. What each factory needs of its surroundings is a parameter:
-- the environment for jwt_auth, the shared store for rate_limiting.
pub mod Building
use dealer.Base.{
  ℕ, Bool, Option, none, some, List, [], ◌∷◌, String, str_eq, if◌then◌else◌, Result, ok, err, ◌>>=◌,
}
use dealer.Config.Types.{Entries}
use dealer.Http.Writer.{ResponseHeaders}
use dealer.Plugin.AddHeader.{AddHeader, new_add_header}
use dealer.Plugin.Cors.{Cors, new_cors}
use dealer.Plugin.JwtAuth.{JwtAuth, new_jwt_auth}
use dealer.Plugin.RateLimit.{RateLimiting, new_rate_limiting}
use dealer.Plugin.ResponseHeaders.{new_response_headers}
use dealer.Plugin.SizeLimit.{RequestSizeLimiting, new_request_size_limiting}
use dealer.Plugin.Values.{PluginError, unknown_plugin, Float}

-- A plugin that was built.
pub data Built (fl : Float) : Type 0 where
  add_header : AddHeader → Built fl
  http_log : Built fl
  request_size_limiting : RequestSizeLimiting → Built fl
  jwt_auth : JwtAuth → Built fl
  cors : Cors → Built fl
  response_headers : ResponseHeaders → Built fl
  rate_limiting : RateLimiting fl → Built fl

abbrev pub name_of : {fl : Float} → Built fl → String
name_of (add_header p) = "add_header"
name_of http_log = "http_log"
name_of (request_size_limiting p) = "request_size_limiting"
name_of (jwt_auth p) = "jwt_auth"
name_of (cors p) = "cors"
name_of (response_headers p) = "response_headers"
name_of (rate_limiting p) = "rate_limiting"

abbrev pub built :
    {fl : Float} {A : Type 0}
    → (A → Built fl)
    → Result PluginError A
    → Result PluginError (Built fl)
built f m = m >>= λ p. ok (f p)

module _ (fl : Float) (getenv : String → String) (shared : Bool) where
  open fl use {F}

  abbrev pub Factory : Type 0
  Factory = Entries F → Result PluginError (Built fl)

  abbrev pub builtins : List (String × Factory)
  builtins =
      ("add_header", λ cfg. built add_header (new_add_header cfg))
      ∷ ("http_log", λ cfg. ok http_log)
      ∷ (
        "request_size_limiting",
        λ cfg. built request_size_limiting (new_request_size_limiting fl cfg),
      )
      ∷ ("jwt_auth", λ cfg. built jwt_auth (new_jwt_auth getenv cfg))
      ∷ ("cors", λ cfg. built cors (new_cors fl cfg))
      ∷ ("response_headers", λ cfg. built response_headers (new_response_headers cfg))
      ∷ []

  unfoldable pub factory_of : List (String × Factory) → String → Option Factory
  factory_of [] name = none
  factory_of ((n, f) ∷ fs) name = if str_eq n name then some f else factory_of fs name

  -- A missing factory is an error, the factory that is found is called.
  abbrev pub made : Option (Factory) → String → Entries F → Result PluginError (Built fl)
  made none name cfg = err (unknown_plugin name)
  made (some factory) name cfg = factory cfg

  unfoldable pub build : String → Entries F → String → Result PluginError (Built fl)
  unfolding factory_of
  build name cfg instance_id =
      if str_eq name "rate_limiting"
      then built rate_limiting (new_rate_limiting fl shared cfg instance_id)
      else made (factory_of builtins name) name cfg
