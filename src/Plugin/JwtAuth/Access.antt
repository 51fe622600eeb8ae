-- ===== src/Plugin/JwtAuth/Access.antt =====
-- Whom jwt_auth of gateway/internal/plugin/jwt_auth.go lets through.
use dealer.Base.{
  ◌≡◌, ◌≢◌, refl, inl, inr, Bool, true, false, Option, none, some, String, is_empty, eq_iff, arith,
  if◌then◌else◌, Bool-cases,
}
use dealer.Http.Request.{Request}
use dealer.Http.Writer.{http_error}
use dealer.Plugin.Contract.{Env, Handler, on_writer}
use dealer.Plugin.JwtAuth.{JwtAuth, extract_token, key_for, is_valid, wrap_jwt_auth}

valid_only : (o : Option Bool) → o ≢ some true → is_valid o ≡ false
valid_only none h = refl
valid_only (some true) h = absurd (h refl)
valid_only (some false) h = refl

module _ (jwt_parse : String → (Bool → Option String) → Option Bool) (p : JwtAuth) where
  -- A request whose token the library accepts.
  abbrev pub IsAccepted : Request → Type 0
  IsAccepted r = (extract_token r ≢ "") × (jwt_parse (extract_token r) (key_for p) ≡ some true)

  not_valid :
      (r : Request)
      → ¬ (IsAccepted r)
      → is_empty (extract_token r) ≡ false
      → is_valid (jwt_parse (extract_token r) (key_for p)) ≡ false
  not_valid r h there =
      valid_only (jwt_parse (extract_token r) (key_for p))
        λ e. h (ground (arith, eq_iff (extract_token r) ""), e)

module _ (jwt_parse : String → (Bool → Option String) → Option Bool) {S : Type 0}
    (p : JwtAuth) where
  -- A request with an accepted token is passed on as it is.
  pub wrap_jwt_auth-accepted :
      (next : Handler S) (r : Request) (e : Env S)
      → IsAccepted jwt_parse p r
      → wrap_jwt_auth jwt_parse p next r e ≡ next r e
  unfolding wrap_jwt_auth
  wrap_jwt_auth-accepted next r e h = ground (arith, eq_iff (extract_token r) "")

  -- A request with no token, or with one that the library does not accept, is answered by 401, the
  -- same whatever the handler behind, which is not called.
  pub wrap_jwt_auth-refused :
      (next : Handler S) (r : Request) (e : Env S)
      → ¬ (IsAccepted jwt_parse p r)
      → wrap_jwt_auth jwt_parse p next r e
        ≡ on_writer
            (http_error (if is_empty (extract_token r) then "missing jwt" else "invalid jwt") 401)
            e
  unfolding wrap_jwt_auth
  wrap_jwt_auth-refused next r e h = elim (Bool-cases (is_empty (extract_token r))) [
    | inl blank ↦ rw blank
    | inr there ↦ rw (there, not_valid jwt_parse p r h there)
  ]
