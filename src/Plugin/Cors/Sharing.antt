-- ===== src/Plugin/Cors/Sharing.antt =====
-- What cors of gateway/internal/plugin/cors.go lets a browser share, and which requests it answers.
use dealer.Base.{
  ◌≡◌, ◌≢◌, refl, ap, ◌∙◌, inl, inr, Bool, true, false, [], ◌∷◌, String, str_eq, arith,
  if◌then◌else◌, ok, Bool-cases,
}
use dealer.Config.Types.{Entries}
use dealer.Http.Header as Header
use dealer.Http.Header.{lookup, canonical, lookup-insert}
use dealer.Http.Request.{Request}
use dealer.Http.Writer.{write_header}
use dealer.Plugin.Contract.{Env, Handler, on_writer}
use dealer.Plugin.Values.{Float}
use dealer.Plugin.Cors.{
  Cors, has_wildcard, new_cors, origin_allowed, is_preflight, preflight_headers, origin_headers,
  wrap_cors,
}

-- A plugin that shares credentials shares them with listed origins only, never with "*".
abbrev pub IsSound : Cors → Type 0
IsSound p = p.allow_credentials ≡ true → has_wildcard p.allowed_origins ≡ false

module _ (fl : Float) where
  open fl use {F}

  -- Whatever the configuration, a plugin that is built lists an origin, and if it shares
  -- credentials then "*" is not among its origins.
  pub new_cors-IsSound :
      (cfg : Entries F) (p : Cors) → new_cors fl cfg ≡ ok p → (p.allowed_origins ≢ []) × IsSound p
  unfolding new_cors
  new_cors-IsSound cfg p h = (ground arith, ground arith)

module _ {S : Type 0} (p : Cors) (r : Request) (e : Env S) where
  -- A preflight is answered by the plugin, with an Origin or without, whatever the handler behind.
  pub wrap_cors-preflight :
      (next next' : Handler S)
      → is_preflight r ≡ true
      → wrap_cors p next r e ≡ wrap_cors p next' r e
  unfolding wrap_cors
  wrap_cors-preflight next next' h = ground arith

  -- From an origin that is not allowed a request gets no header of the plugin's.
  pub wrap_cors-refused :
      (next : Handler S)
      → origin_allowed p.allowed_origins (Header.get r.header "Origin") ≡ false
      → wrap_cors p next r e ≡ (if is_preflight r then on_writer (write_header 204) e else next r e)
  unfolding wrap_cors
  wrap_cors-refused next h = ground arith

abbrev allow_origin : String
allow_origin = "Access-Control-Allow-Origin"

abbrev allow_credentials_key : String
allow_credentials_key = "Access-Control-Allow-Credentials"

preflight_headers-lookup :
    (p : Cors) (h : Header.Header) (key : String)
    → str_eq (canonical "Access-Control-Allow-Methods") key ≡ false
    → str_eq (canonical "Access-Control-Allow-Headers") key ≡ false
    → str_eq (canonical "Access-Control-Max-Age") key ≡ false
    → lookup key (preflight_headers p h) ≡ lookup key h
unfolding preflight_headers
preflight_headers-lookup p h key m hs a = grind (arith, lookup-insert)

-- The headers before those of a preflight.
abbrev credited : Cors → String → Header.Header → Header.Header
credited p origin h =
    let shared =
      Header.put allow_origin (if has_wildcard p.allowed_origins then "*" else origin)
        (Header.add "Vary" "Origin" h) in
    if p.allow_credentials then Header.put allow_credentials_key "true" shared else shared

credited-origin :
    (p : Cors) (origin : String) (h : Header.Header)
    → lookup (canonical allow_origin) (credited p origin h)
      ≡ (if has_wildcard p.allowed_origins then "*" else origin) ∷ []
unfolding canonical
credited-origin p origin h = elim (Bool-cases p.allow_credentials) [
  | inl on ↦ rw on (simp lookup-insert)
  | inr off ↦ rw off (simp lookup-insert)
]

credited-credentials :
    (p : Cors) (origin : String) (h : Header.Header)
    → Header.get (credited p origin h) allow_credentials_key
      ≡ (if p.allow_credentials then "true" else Header.get h allow_credentials_key)
unfolding canonical
credited-credentials p origin h = elim (Bool-cases p.allow_credentials) [
  | inl on ↦ rw on (simp lookup-insert)
  | inr off ↦ rw off (simp lookup-insert)
]

preflight_headers-get :
    (p : Cors) (h : Header.Header)
    → (Header.get (preflight_headers p h) allow_origin ≡ Header.get h allow_origin)
      × (Header.get (preflight_headers p h) allow_credentials_key
          ≡ Header.get h allow_credentials_key)
unfolding canonical
preflight_headers-get p h = (
  rw (preflight_headers-lookup p h (canonical allow_origin) refl refl refl),
  rw (preflight_headers-lookup p h (canonical allow_credentials_key) refl refl refl),
)

-- The two headers that decide what a browser shares, on every answer to an allowed origin, a
-- preflight's too: "*" or the origin itself, and "true" only for a plugin with credentials, a
-- header that was there before left alone otherwise.
pub origin_headers-shared :
    (p : Cors) (origin : String) (preflight : Bool) (h : Header.Header)
    → (Header.get (origin_headers p origin preflight h) "Access-Control-Allow-Origin"
        ≡ (if has_wildcard p.allowed_origins then "*" else origin))
      × (Header.get (origin_headers p origin preflight h) "Access-Control-Allow-Credentials" ≡ (
          if p.allow_credentials then "true" else Header.get h "Access-Control-Allow-Credentials"))
unfolding origin_headers
origin_headers-shared p origin true h =
    let c = preflight_headers-get p (credited p origin h) in
    (c.0 ∙ ap Header.first (credited-origin p origin h), c.1 ∙ credited-credentials p origin h)
origin_headers-shared p origin false h =
    (ap Header.first (credited-origin p origin h), credited-credentials p origin h)
