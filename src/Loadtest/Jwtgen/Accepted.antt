-- ===== src/Loadtest/Jwtgen/Accepted.antt =====
-- A token of loadtest/jwtgen/main.go at jwt_auth of gateway/internal/plugin/jwt_auth.go.
use dealer.Base.{
  refl, subst, none, List, [], ◌∷◌, str_eq, if◌then◌else◌, ℕ, ◌+◌, ◌*◌, ◌≤◌, ◌<◌, ◌≡◌, ◌≢◌, inl,
  inr, sym, ap, ◌∙◌, Bool, true, false, Option, some, String, append, is_empty, eq_iff, arith,
  Bool-cases, ok, >>=-eq-ok,
}
use Prim.Native.String.{len}
use text.Mathlib.TextPositions.{slice-append_right, starts_with-append, len-append}
use dealer.Config.Types.{Entries, Value, get}
use dealer.Http.Header as Header
use dealer.Http.Request.{Request}
use dealer.Loadtest.Jwtgen.{
  Claim, str, num, Crypto, second, unix, b64json, header_map, claims_map, signed, mint, run,
}
use dealer.Plugin.Contract.{Env, Handler}
use dealer.Plugin.JwtAuth.{JwtAuth, extract_token, key_for, new_jwt_auth, wrap_jwt_auth}
use dealer.Plugin.JwtAuth.Access.{wrap_jwt_auth-accepted}

no_length : (s t : String) → append s t ≡ "" → len s ≡ 0
no_length s t e = let total : len s + len t ≡ 0 = sym (len-append s t) ∙ ap len e in omega arith

is_empty-append : (s t : String) → len s ≢ 0 → is_empty (append s t) ≡ false
is_empty-append s t h = elim (Bool-cases (is_empty (append s t))) [
  | inl blank ↦ absurd (h (no_length s t (ground (arith, eq_iff (append s t) ""))))
  | inr filled ↦ filled
]

-- What follows "Bearer " in the header is the token.
extract_token-bearer :
    (r : Request) (token : String)
    → Header.get r.header "Authorization" ≡ append "Bearer " token
    → extract_token r ≡ token
unfolding extract_token
extract_token-bearer r token h = rw (
  h,
  is_empty-append "Bearer " token (λ e. ground arith),
  starts_with-append "Bearer " token,
  len-append "Bearer " token,
  slice-append_right "Bearer " token,
)

-- The member of a JSON object, by its key.
abbrev pub member : String → List (String × Claim) → Option Claim
member key [] = none
member key ((k, c) ∷ rest) = if str_eq k key then some c else member key rest

module _ {B E : Type 0} (crypto : Crypto B E) where
  -- What a part of a token decodes to: base64 and JSON are read back as they were written.
  abbrev pub ReadsBack : (String → Option (List (String × Claim))) → Type 0
  ReadsBack decode =
      (members : List (String × Claim)) (encoded : B)
      → crypto.marshal members ≡ ok encoded
      → decode (crypto.base64 encoded) ≡ some members

  -- jwt.Parse at the time `at`: a text of three parts, of which the first is a header with the
  -- algorithm HS256, the second has claims that expire later and may be used at once, and the third
  -- is the base64 of the HMAC with SHA-256 of the first two and the dot between them, under the key
  -- that it is given for an HMAC.
  abbrev pub AcceptsHs256 :
      (String → Option (List (String × Claim)))
      → (ℕ → String → (Bool → Option String) → Option Bool)
      → Type 0
  AcceptsHs256 decode parse =
      (at : ℕ) (keys : Bool → Option String) (key header claims : String)
      (header_members claims_members : List (String × Claim)) (expires : ℕ)
      → decode header ≡ some header_members
      → member "alg" header_members ≡ some (str "HS256")
      → decode claims ≡ some claims_members
      → member "exp" claims_members ≡ some (num expires)
      → member "nbf" claims_members ≡ none
      → at < expires * second
      → keys true ≡ some key
      → let input = append header (append "." claims) in
        parse at
          (append input (
            append "."
              (crypto.base64 (crypto.hmac_sha256 (crypto.bytes key) (crypto.bytes input)))))
          keys
        ≡ some true

  b64json-decode :
      (decode : String → Option (List (String × Claim))) (members : List (String × Claim))
      (part : String)
      → ReadsBack decode
      → b64json crypto members ≡ ok part
      → decode part ≡ some members
  b64json-decode decode members part reads h =
      let (encoded, made, same) = >>=-eq-ok (crypto.marshal members) _ h in
      let e : crypto.base64 encoded ≡ part = cc in
      subst (λ text. decode text ≡ some members) e (reads members encoded made)

  mint-eq-ok :
      (secret sub : String) (ttl now : ℕ) {token : String}
      → mint crypto secret sub ttl now ≡ ok token
      → (header : String) × (claims : String) × (b64json crypto header_map ≡ ok header)
        × (b64json crypto (claims_map sub (unix now) (unix (now + ttl))) ≡ ok claims)
        × (token ≡ signed crypto secret (append header (append "." claims)))
  unfolding mint
  mint-eq-ok secret sub ttl now h =
      let (header, encoded, rest) = >>=-eq-ok (b64json crypto header_map) _ h in
      let (claims, listed, last) =
        >>=-eq-ok (b64json crypto (claims_map sub (unix now) (unix (now + ttl)))) _ rest in
      (header, claims, encoded, listed, cc)

  run-eq-ok :
      (getenv : String → String) (sub : String) (ttl now : ℕ) {token : String}
      → run crypto getenv sub ttl now ≡ ok token
      → mint crypto (getenv "JWT_SECRET") sub ttl now ≡ ok token
  unfolding run
  run-eq-ok getenv sub ttl now h = ground arith

later : (at now ttl : ℕ) → at + second ≤ now + ttl → at < unix (now + ttl) * second
later at now ttl h = omega arith

signed_there :
    {B E : Type 0} (crypto : Crypto B E) (secret header claims : String)
    → signed crypto secret (append header (append "." claims)) ≢ ""
signed_there crypto secret header claims e =
    let input = append header (append "." claims) in
    let mac = crypto.base64 (crypto.hmac_sha256 (crypto.bytes secret) (crypto.bytes input)) in
    let total : len input + len (append "." mac) ≡ 0 =
      sym (len-append input (append "." mac)) ∙ ap len e in
    let last = len-append "." mac in omega arith

new_jwt_auth-secret :
    {F : Type 0} (getenv : String → String) (cfg : Entries F) {p : JwtAuth} (name : String)
    → get cfg "secret_env" ≡ some (Value.text name)
    → new_jwt_auth getenv cfg ≡ ok p
    → p.secret ≡ getenv name
unfolding new_jwt_auth
new_jwt_auth-secret getenv cfg name named built = ground arith

module _ {B E S F : Type 0} (crypto : Crypto B E)
    (parse : ℕ → String → (Bool → Option String) → Option Bool) where
  -- A token that jwtgen prints is let through: where the secret_env of a built jwt_auth names
  -- JWT_SECRET, what base64 and json.Marshal encode is read back, and jwt.Parse accepts a token with
  -- the algorithm HS256, an expiry to come and the signature of the key that it is given, a request
  -- whose Authorization is "Bearer " and the token is passed on as it is, up to a second before the
  -- time-to-live has passed.
  pub run-accepted :
      (decode : String → Option (List (String × Claim))) (getenv : String → String)
      (cfg : Entries F) (p : JwtAuth) (sub token : String) (ttl now at : ℕ) (next : Handler S)
      (r : Request) (e : Env S)
      → ReadsBack crypto decode
      → AcceptsHs256 crypto decode parse
      → get cfg "secret_env" ≡ some (Value.text "JWT_SECRET")
      → new_jwt_auth getenv cfg ≡ ok p
      → run crypto getenv sub ttl now ≡ ok token
      → at + second ≤ now + ttl
      → Header.get r.header "Authorization" ≡ append "Bearer " token
      → wrap_jwt_auth (parse at) p next r e ≡ next r e
  run-accepted decode getenv cfg p sub token ttl now at next r e reads accepts named built ran fresh
        sent =
      let (header, claims, encoded, listed, eq) =
        mint-eq-ok crypto (getenv "JWT_SECRET") sub ttl now
          (run-eq-ok crypto getenv sub ttl now ran) in
      let found = extract_token-bearer r token sent ∙ eq in
      let keyed = ap some (new_jwt_auth-secret getenv cfg "JWT_SECRET" named built) in
      let members = claims_map sub (unix now) (unix (now + ttl)) in
      let accepted =
        accepts at (key_for p) (getenv "JWT_SECRET") header claims header_map members
          (unix (now + ttl)) (b64json-decode crypto decode header_map header reads encoded) refl
          (b64json-decode crypto decode members claims reads listed) refl refl
          (later at now ttl fresh) keyed in
      wrap_jwt_auth-accepted (parse at) p next r e
        (rw found (signed_there crypto (getenv "JWT_SECRET") header claims), rw found accepted)
