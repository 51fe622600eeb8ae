-- ===== src/Plugin/Cors.antt =====
-- gateway/internal/plugin/cors.go.
pub mod Sharing
pub mod Credentials
pub mod Configuration
mod Examples
use dealer.Base.{
  Bool, true, false, ◌&&◌, ◌||◌, not, Option, none, some, List, [], ◌∷◌, String, is_empty, str_eq,
  join, if◌then◌else◌, any, ℤ, Result, ok, err, ◌>>=◌, ◌>>◌,
}
use dealer.Config.Types.{Entries, Value, bool, get}
use dealer.Http.Header as Header
use dealer.Http.Request.{Request}
use dealer.Http.Writer.{Writer, write_header, with_header}
use dealer.Plugin.Contract.{Env, Handler, Plugin, on_writer}
use dealer.Plugin.Values.{
  PluginError, guard, required, credentials_with_wildcard, Float, to_int64, to_string_slice,
  format_int,
}

pub record Cors : Type 0 where
  pub allowed_origins : List String
  pub allowed_methods : List String
  pub allowed_headers : List String
  pub allow_credentials : Bool
  pub max_age : String

abbrev pub is_nil {ℓ} : {A : Type ℓ} → List A → Bool
is_nil [] = true
is_nil (x ∷ xs) = false

abbrev pub bool_or_false : {F : Type 0} → Option (Value F) → Bool
bool_or_false (some (bool b)) = b
bool_or_false (some v) = false
bool_or_false none = false

-- The loop of newCORS over the origins, and allowAllOrigins.
unfoldable pub has_wildcard : List String → Bool
has_wildcard [] = false
has_wildcard (o ∷ os) = if str_eq o "*" then true else has_wildcard os

module _ (fl : Float) where
  open fl use {F}

  abbrev pub max_age_of : Option (Value F) → Result PluginError String
  max_age_of none = ok ""
  max_age_of (some raw) =
      to_int64 fl "cors: config.max_age" raw >>= λ seconds. ok (format_int seconds)

  unfoldable pub new_cors : Entries F → Result PluginError Cors
  unfolding get to_string_slice has_wildcard to_int64 format_int
  new_cors cfg = do
    origins ← to_string_slice cfg "allowed_origins"
    guard (is_nil origins) (required "cors: config.allowed_origins")
    methods ← to_string_slice cfg "allowed_methods"
    headers ← to_string_slice cfg "allowed_headers"
    guard (bool_or_false (get cfg "allow_credentials") && has_wildcard origins)
        credentials_with_wildcard
    max_age ← max_age_of (get cfg "max_age")
    ok (record {
      allowed_origins = origins;
      allowed_methods = methods;
      allowed_headers = headers;
      allow_credentials = bool_or_false (get cfg "allow_credentials");
      max_age = max_age;
    })

-- originAllowed
unfoldable pub origin_allowed : List String → String → Bool
origin_allowed [] origin = false
origin_allowed (o ∷ os) origin =
    if str_eq o "*" || str_eq o origin then true else origin_allowed os origin

abbrev pub is_preflight : Request → Bool
is_preflight r =
    str_eq r.method "OPTIONS"
    && not (is_empty (Header.get r.header "Access-Control-Request-Method"))

-- The headers of a preflight's answer.
unfoldable pub preflight_headers : Cors → Header.Header → Header.Header
preflight_headers p h =
    let with_methods =
      if is_nil p.allowed_methods
      then h
      else Header.put "Access-Control-Allow-Methods" (join p.allowed_methods ", ") h in
    let with_headers =
      if is_nil p.allowed_headers
      then with_methods
      else Header.put "Access-Control-Allow-Headers" (join p.allowed_headers ", ") with_methods in
    if is_empty p.max_age
    then with_headers
    else Header.put "Access-Control-Max-Age" p.max_age with_headers

-- The headers for an allowed origin.
unfoldable pub origin_headers : Cors → String → Bool → Header.Header → Header.Header
unfolding has_wildcard preflight_headers
origin_headers p origin preflight h =
    let shared =
      Header.put "Access-Control-Allow-Origin"
        (if has_wildcard p.allowed_origins then "*" else origin) (Header.add "Vary" "Origin" h) in
    let credited =
      if p.allow_credentials
      then Header.put "Access-Control-Allow-Credentials" "true" shared
      else shared in
    if preflight then preflight_headers p credited else credited

unfoldable pub wrap_cors : {S : Type 0} → Cors → Handler S → Handler S
unfolding origin_allowed origin_headers
wrap_cors p next r e =
    let origin = Header.get r.header "Origin" in
    if is_empty origin
    then if is_preflight r then on_writer (write_header 204) e else next r e
    else let e' =
        if origin_allowed p.allowed_origins origin
        then on_writer (with_header (origin_headers p origin (is_preflight r))) e
        else e in
      if is_preflight r then on_writer (write_header 204) e' else next r e'

unfoldable pub cors_plugin : {S : Type 0} → Cors → Plugin S
unfolding wrap_cors
cors_plugin p = record { name = "cors"; wrap = wrap_cors p }
