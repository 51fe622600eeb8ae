-- ===== src/Plugin/JwtAuth.antt =====
-- gateway/internal/plugin/jwt_auth.go. The library's jwt.Parse is a parameter: of a token and of the
-- key function, which is asked with whether the token's signing method is an HMAC, it gives none on
-- an error and else the token's Valid field. os.Getenv is a parameter, too.
pub mod Access
use dealer.Base.{
  Bool, true, false, ◌||◌, not, Option, none, some, List, String, is_empty, has_prefix,
  if◌then◌else◌, Result, ok, err,
}
use Prim.Native.String.{slice, len}
use dealer.Config.Types.{Entries, Value, text, get}
use dealer.Http.Header as Header
use dealer.Http.Request.{Request, query_get}
use dealer.Http.Writer.{http_error}
use dealer.Plugin.Contract.{Env, Handler, Plugin, on_writer}
use dealer.Plugin.Values.{PluginError, required, env_not_set}

pub record JwtAuth : Type 0 where
  pub secret : String

abbrev pub text_or_empty : {F : Type 0} → Option (Value F) → String
text_or_empty (some (text s)) = s
text_or_empty (some v) = ""
text_or_empty none = ""

unfoldable pub new_jwt_auth :
    {F : Type 0} → (String → String) → Entries F → Result PluginError JwtAuth
unfolding get
new_jwt_auth getenv cfg =
    let env_name = text_or_empty (get cfg "secret_env") in
    if is_empty env_name
    then err (required "jwt_auth: config.secret_env")
    else if is_empty (getenv env_name)
    then err (env_not_set env_name)
    else ok (record { secret = getenv env_name })

-- strings.CutPrefix(auth, "Bearer ")
unfoldable pub extract_token : Request → String
unfolding query_get
extract_token r =
    let auth = Header.get r.header "Authorization" in
    if not (is_empty auth)
    then if has_prefix auth "Bearer " then slice auth 7 (len auth) else query_get r.query "token"
    else query_get r.query "token"

-- The key function: the secret for an HMAC, an error for any other method.
abbrev pub key_for : JwtAuth → Bool → Option String
key_for p is_hmac = if is_hmac then some p.secret else none

abbrev pub is_valid : Option Bool → Bool
is_valid none = false
is_valid (some valid) = valid

module _ (jwt_parse : String → (Bool → Option String) → Option Bool) where
  unfoldable pub wrap_jwt_auth : {S : Type 0} → JwtAuth → Handler S → Handler S
  wrap_jwt_auth p next r e =
      if is_empty (extract_token r)
      then on_writer (http_error "missing jwt" 401) e
      else if not (is_valid (jwt_parse (extract_token r) (key_for p)))
      then on_writer (http_error "invalid jwt" 401) e
      else next r e

  unfoldable pub jwt_auth_plugin : {S : Type 0} → JwtAuth → Plugin S
  unfolding wrap_jwt_auth
  jwt_auth_plugin p = record { name = "jwt_auth"; wrap = wrap_jwt_auth p }
