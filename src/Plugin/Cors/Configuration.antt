-- ===== src/Plugin/Cors/Configuration.antt =====
-- Which configurations newCORS of gateway/internal/plugin/cors.go accepts.
use dealer.Base.{
  ◌≡◌, refl, subst, ◌↔◌, Bool, false, ◌&&◌, Option, none, some, List, String, arith, ℤ, Result, ok,
  err, >>=-eq-ok, ◌>>=◌, ◌>>◌,
}
use dealer.Config.Types.{Value, Entries, get}
use dealer.Plugin.Cors.{Cors, is_nil, bool_or_false, has_wildcard, max_age_of, new_cors}
use dealer.Plugin.Values.{
  PluginError, guard, required, credentials_with_wildcard, Float, to_string_slice, to_int64,
  format_int,
}
use dealer.Plugin.Values.Typing.{
  Slice, list_of-Slice, Slice-list_of, Whole, to_int64-Whole, Whole-to_int64,
}

-- newCORS, with what its conversions give.
assemble :
    Result PluginError (List String)
    → Result PluginError (List String)
    → Result PluginError (List String)
    → Bool
    → Result PluginError String
    → Result PluginError Cors
assemble given_origins given_methods given_headers allow age = do
  origins ← given_origins
  guard (is_nil origins) (required "cors: config.allowed_origins")
  methods ← given_methods
  headers ← given_headers
  guard (allow && has_wildcard origins) credentials_with_wildcard
  max_age ← age
  ok (record {
    allowed_origins = origins;
    allowed_methods = methods;
    allowed_headers = headers;
    allow_credentials = allow;
    max_age = max_age;
  })

record Parts (o m h : Result PluginError (List String)) (allow : Bool)
    (age : Result PluginError String) (p : Cors) : Type 0 where
  origins : o ≡ ok p.allowed_origins
  not_empty : is_nil p.allowed_origins ≡ false
  methods : m ≡ ok p.allowed_methods
  headers : h ≡ ok p.allowed_headers
  credentials : allow ≡ p.allow_credentials
  sound : p.allow_credentials && has_wildcard p.allowed_origins ≡ false
  max_age : age ≡ ok p.max_age

assemble-ok :
    (o m h : Result PluginError (List String)) (allow : Bool) (age : Result PluginError String)
    (p : Cors)
    → assemble o m h allow age ≡ ok p
    → Parts o m h allow age p
unfolding assemble
assemble-ok (ok os) (ok ms) (ok hs) allow (ok a) p e = ground arith
assemble-ok (err x) m h allow age p e = cc
assemble-ok o m h allow age p e = ground arith

ok-assemble :
    (o m h : Result PluginError (List String)) (allow : Bool) (age : Result PluginError String)
    (p : Cors)
    → Parts o m h allow age p
    → assemble o m h allow age ≡ ok p
unfolding assemble
ok-assemble o m h allow age p d =
    rw (d.origins, d.not_empty, d.methods, d.headers, d.credentials, d.sound, d.max_age) refl

module _ (fl : Float) where
  open fl use {F}

  -- max_age, in seconds; a missing one sends no header.
  pub data MaxAge : Option (Value F) → String → Type 0 where
    unlimited : MaxAge none ""
    seconds : {v : Value F} {n : ℤ} → Whole fl v n → MaxAge (some v) (format_int n)

  -- A configuration with the right types and values, and the plugin that it describes. For
  -- allow_credentials, the type assertion of the code gives false at every other type.
  pub record Describes (cfg : Entries F) (p : Cors) : Type 0 where
    origins : Slice (get cfg "allowed_origins") p.allowed_origins
    not_empty : is_nil p.allowed_origins ≡ false
    methods : Slice (get cfg "allowed_methods") p.allowed_methods
    headers : Slice (get cfg "allowed_headers") p.allowed_headers
    credentials : bool_or_false (get cfg "allow_credentials") ≡ p.allow_credentials
    sound : p.allow_credentials && has_wildcard p.allowed_origins ≡ false
    max_age : MaxAge (get cfg "max_age") p.max_age

  max_age_of-MaxAge : (v : Option (Value F)) (s : String) → max_age_of fl v ≡ ok s → MaxAge v s
  max_age_of-MaxAge none s h = let e : "" ≡ s = cc in subst (MaxAge none) e unlimited
  max_age_of-MaxAge (some v) s h =
      let (n, made, eq) = >>=-eq-ok (to_int64 fl "cors: config.max_age" v) _ h in
      let e : format_int n ≡ s = cc in
      subst (MaxAge (some v)) e (seconds (to_int64-Whole fl "cors: config.max_age" v n made))

  MaxAge-max_age_of : {v : Option (Value F)} {s : String} → MaxAge v s → max_age_of fl v ≡ ok s
  MaxAge-max_age_of unlimited = refl
  MaxAge-max_age_of (seconds w) = rw (Whole-to_int64 fl "cors: config.max_age" w) refl

  -- A configuration of cors is accepted exactly if each of the lists and the max_age that it has is
  -- of its type, an origin is listed, and credentials are not allowed together with "*"; the plugin
  -- is then the one that it describes. An allow_credentials that is missing or of any type but bool
  -- is no error: it counts as false, and a list that is null counts as missing.
  pub new_cors-ok_iff : (cfg : Entries F) (p : Cors) → (new_cors fl cfg ≡ ok p) ↔ Describes cfg p
  unfolding new_cors to_string_slice assemble
  new_cors-ok_iff cfg p =
      let o = to_string_slice cfg "allowed_origins" in
      let m = to_string_slice cfg "allowed_methods" in
      let h = to_string_slice cfg "allowed_headers" in
      let allow = bool_or_false (get cfg "allow_credentials") in
      let age = max_age_of fl (get cfg "max_age") in
      (
        λ e.
            let parts = assemble-ok o m h allow age p e in
            record {
              origins =
                  list_of-Slice "allowed_origins" (get cfg "allowed_origins") p.allowed_origins
                    parts.origins;
              not_empty = parts.not_empty;
              methods =
                  list_of-Slice "allowed_methods" (get cfg "allowed_methods") p.allowed_methods
                    parts.methods;
              headers =
                  list_of-Slice "allowed_headers" (get cfg "allowed_headers") p.allowed_headers
                    parts.headers;
              credentials = parts.credentials;
              sound = parts.sound;
              max_age = max_age_of-MaxAge (get cfg "max_age") p.max_age parts.max_age;
            },
        λ d. ok-assemble o m h allow age p (record {
          origins = Slice-list_of "allowed_origins" d.origins;
          not_empty = d.not_empty;
          methods = Slice-list_of "allowed_methods" d.methods;
          headers = Slice-list_of "allowed_headers" d.headers;
          credentials = d.credentials;
          sound = d.sound;
          max_age = MaxAge-max_age_of d.max_age;
        }),
      )
