-- ===== src/Loadtest/Jwtgen/Examples.antt =====
-- A token of loadtest/jwtgen/main.go that the gateway lets through.
use dealer.Base.{
  ◌*◌, List, ltb, ◌&&◌, ◌==◌, ==_iff, eq_iff, ap, Result, err, inl, inr, Bool-cases, subst, ◌∙◌, ℕ,
  ◌≡◌, refl, sym, Bool, true, false, Option, none, some, [], ◌∷◌, String, append, str_eq, eq_refl,
  arith, if◌then◌else◌, ok, pos,
}
use dealer.Config.Types.{Entries, Value, get}
use dealer.Http.Header as Header
use dealer.Http.Request.{Request}
use dealer.Http.Writer.{http_error}
use dealer.Loadtest.Jwtgen.{Claim, str, num, Crypto, second, header_map, claims_map, run}
use dealer.Loadtest.Jwtgen.Accepted.{ReadsBack, AcceptsHs256, member, run-accepted}
use dealer.Plugin.Contract.{Env, Handler, on_writer}
use dealer.Plugin.JwtAuth.{new_jwt_auth, wrap_jwt_auth}

abbrev same_claim : Claim → Claim → Bool
same_claim (str s) (str t) = str_eq s t
same_claim (num m) (num n) = m == n
same_claim c d = false

abbrev same_members : List (String × Claim) → List (String × Claim) → Bool
same_members [] [] = true
same_members ((k, c) ∷ ms) ((l, d) ∷ ns) = str_eq k l && (same_claim c d && same_members ms ns)
same_members ms ns = false

same_claim-eq : (c d : Claim) → same_claim c d ≡ true → c ≡ d
same_claim-eq (str s) (str t) h = ap str ((eq_iff s t).0 h)
same_claim-eq (num m) (num n) h = ap num ((==_iff m n).0 h)
same_claim-eq (str s) (num n) h = absurd (cc)
same_claim-eq (num m) (str t) h = absurd (cc)

same_members-eq : (ms ns : List (String × Claim)) → same_members ms ns ≡ true → ms ≡ ns
same_members-eq [] [] h = refl
same_members-eq ((k, c) ∷ ms) ((l, d) ∷ ns) h =
    ground (arith, eq_iff k l, same_claim-eq c d, same_members-eq ms ns)
same_members-eq [] (n ∷ ns) h = absurd (cc)
same_members-eq (m ∷ ms) [] h = absurd (cc)

-- The header and the claims of the token below are encoded, and nothing else is; the HMAC of a text
-- is the key before the text.
abbrev members : List (String × Claim)
members = claims_map "loadtest" 5 3605

abbrev encode : List (String × Claim) → Result (Unit {0}) String
encode ms =
    if same_members ms header_map
    then ok "h"
    else if same_members ms members
    then ok "c"
    else err tt

abbrev plain : Crypto String (Unit {0})
plain = record {
  marshal = encode;
  base64 = λ b. b;
  bytes = λ s. s;
  hmac_sha256 = λ k m. append k m;
}

abbrev decode : String → Option (List (String × Claim))
decode part =
    if str_eq part "h" then some header_map else if str_eq part "c" then some members else none

ok-eq : {s t : String} → ◌≡◌ {A = Result (Unit {0}) String} (ok s) (ok t) → s ≡ t
ok-eq h = cc

err-absurd {ℓ} : {C : Type ℓ} {t : String} → ◌≡◌ {A = Result (Unit {0}) String} (err tt) (ok t) → C
err-absurd h = absurd (cc)

reads_back : ReadsBack plain decode
reads_back ms encoded h = elim (Bool-cases (same_members ms header_map)) [
  | inl first ↦
      let e : "h" ≡ encoded = ok-eq ((rw first at h)) in
      let same = same_members-eq ms header_map first in
      subst (λ part. decode part ≡ some ms) e (ap some (sym same))
  | inr other ↦ elim (Bool-cases (same_members ms members)) [
    | inl second_one ↦
        let e : "c" ≡ encoded = ok-eq ((rw (other, second_one) at h)) in
        let same = same_members-eq ms members second_one in
        subst (λ part. decode part ≡ some ms) e (ap some (sym same))
    | inr neither ↦ err-absurd (rw (other, neither) at h)
  ]
]

abbrev signing_input : String
signing_input = append "h" (append "." "c")

abbrev expected : String → String
expected key = append signing_input (append "." (append key signing_input))

-- A token of the two parts that are known, with the right HMAC, before it expires.
abbrev if_signed : ℕ → String → Option String → Option Bool
if_signed at token none = none
if_signed at token (some key) =
    if ltb at (3605 * second) && str_eq token (expected key) then some true else none

abbrev check_signature : ℕ → String → (Bool → Option String) → Option Bool
check_signature at token keys = if_signed at token (keys true)

-- A part that decodes to a header with an algorithm is "h", one with an expiry is "c".
decode-alg :
    (part : String) (ms : List (String × Claim)) (c : Claim)
    → decode part ≡ some ms
    → member "alg" ms ≡ some c
    → "h" ≡ part
decode-alg part ms c d m = elim (Bool-cases (str_eq part "h")) [
  | inl same ↦ sym ((eq_iff part "h").0 same)
  | inr other ↦ elim (Bool-cases (str_eq part "c")) [
    | inl listed ↦
        let e : some members ≡ some ms = (rw (other, listed) at d) in
        absurd (let same : members ≡ ms = cc in cc (ap (member "alg") same, m))
    | inr neither ↦ absurd (let e : none ≡ some ms = (rw (other, neither) at d) in cc)
  ]
]

decode-exp :
    (part : String) (ms : List (String × Claim)) (n : ℕ)
    → decode part ≡ some ms
    → member "exp" ms ≡ some (num n)
    → ("c" ≡ part) × (3605 ≡ n)
decode-exp part ms n d m = elim (Bool-cases (str_eq part "h")) [
  | inl first ↦
      let e : some header_map ≡ some ms = (rw first at d) in
      absurd (let same : header_map ≡ ms = cc in cc (ap (member "exp") same, m))
  | inr other ↦ elim (Bool-cases (str_eq part "c")) [
    | inl listed ↦
        let e : some members ≡ some ms = (rw (other, listed) at d) in
        let same : members ≡ ms = cc in
        let found : some (num 3605) ≡ some (num n) = ap (member "exp") same ∙ m in
        (sym ((eq_iff part "c").0 listed), cc)
    | inr neither ↦ absurd (let e : none ≡ some ms = (rw (other, neither) at d) in cc)
  ]
]

accepts_hs256 : AcceptsHs256 plain decode check_signature
accepts_hs256 at keys key header claims hs cs n dh alg dc exp nbf fresh keyed =
    let first = decode-alg header hs (str "HS256") dh alg in
    let (last, expiry) = decode-exp claims cs n dc exp in
    rw (keyed, sym first, sym last)
      (let early : ltb at (3605 * second) ≡ true =
          subst (λ k. ltb at (k * second) ≡ true) (sym expiry) (ground arith) in
        rw (early, eq_refl (expected key)) refl)

abbrev environment : String → String
environment name = if str_eq name "JWT_SECRET" then "s3cret" else ""

abbrev config : Entries ℕ
config = Entries.entry "secret_env" (Value.text "JWT_SECRET") Entries.empty

abbrev request : Request
request = record {
  method = "GET";
  path = "/";
  query = [];
  header = ("Authorization", "Bearer h.c.s3creth.c" ∷ []) ∷ [];
  remote_addr = "10.0.0.1:1";
  content_length = pos 0;
  body = none;
  body_limits = [];
  client_ip = none;
  request_id = none;
  inbound_id = none;
}

abbrev teapot : Handler (Unit {0})
teapot r e = on_writer (http_error "teapot" 418) e

printed : run plain environment "loadtest" 3600000000000 5000000000 ≡ ok "h.c.s3creth.c"
unfolding run
printed = refl

abbrev env : Env (Unit {0})
env = record {
  writer = record {
    layers = [];
    conn = record { header = []; sent = none; informational = []; chunks = []; hijacked = false };
  };
  state = tt;
}

run-accepted_example :
    wrap_jwt_auth (check_signature 6000000000) (record { secret = "s3cret" }) teapot request env
    ≡ teapot request env
unfolding get new_jwt_auth Header.lookup Header.canonical
run-accepted_example =
    run-accepted plain check_signature decode environment config (record { secret = "s3cret" })
      "loadtest" "h.c.s3creth.c" 3600000000000 5000000000 6000000000 teapot request env reads_back
      accepts_hs256 refl refl printed (omega arith) refl
