-- ===== src/Loadtest/Jwtgen.antt =====
-- loadtest/jwtgen/main.go. json.Marshal, base64.RawURLEncoding.EncodeToString, hmac with SHA-256
-- and the conversion of a text to bytes are parameters, `B` being the byte slices. A time is
-- a number of nanoseconds since the Unix epoch, and the time-to-live is not negative; the flags are
-- given.
pub mod Accepted
mod Examples
use dealer.Base.{
  ℕ, ◌+◌, ◌/◌, List, [], ◌∷◌, String, append, is_empty, if◌then◌else◌, Result, ok, err, ◌>>=◌,
}

-- The values of the maps that are encoded.
pub data Claim : Type 0 where
  str : String → Claim
  num : ℕ → Claim

pub record Crypto (B E : Type 0) : Type 0 where
  pub marshal : List (String × Claim) → Result E B
  pub base64 : B → String
  pub bytes : String → B
  pub hmac_sha256 : B → B → B

pub data GenError (E : Type 0) : Type 0 where
  secret_not_set : GenError E
  failed : E → GenError E

abbrev pub second : ℕ
second = 1000000000

-- time.Time.Unix
abbrev pub unix : ℕ → ℕ
unix t = t / second

abbrev pub header_map : List (String × Claim)
header_map = ("alg", str "HS256") ∷ ("typ", str "JWT") ∷ []

abbrev pub claims_map : String → ℕ → ℕ → List (String × Claim)
claims_map sub issued expires = ("sub", str sub) ∷ ("iat", num issued) ∷ ("exp", num expires) ∷ []

module _ {B E : Type 0} (crypto : Crypto B E) where
  abbrev pub b64json : List (String × Claim) → Result E String
  b64json v = do encoded ← crypto.marshal v; ok (crypto.base64 encoded)

  abbrev pub signed : String → String → String
  signed secret signing_input =
      let mac = crypto.hmac_sha256 (crypto.bytes secret) (crypto.bytes signing_input) in
      append signing_input (append "." (crypto.base64 mac))

  -- `now` is what time.Now returns.
  unfoldable pub mint : String → String → ℕ → ℕ → Result E String
  mint secret sub ttl now = do
    header ← b64json header_map
    claims ← b64json (claims_map sub (unix now) (unix (now + ttl)))
    ok (signed secret (append header (append "." claims)))

  -- The token that main prints, or the error that log.Fatal reports.
  unfoldable pub run : (String → String) → String → ℕ → ℕ → Result (GenError E) String
  unfolding mint
  run getenv sub ttl now =
      let secret = getenv "JWT_SECRET" in
      if is_empty secret
      then err secret_not_set
      else elim (mint secret sub ttl now) [ err e ↦ err (failed e) | ok token ↦ ok token ]
