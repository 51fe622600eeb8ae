-- ===== src/Command/Environment.antt =====
-- cmd/dealer/main.go: the environment, and the parsers of package strconv that the command calls.
use dealer.Base.{
  ℕ, ◌+◌, ◌-◌, ◌*◌, Bool, true, false, ◌&&◌, Option, none, some, List, [], ◌∷◌, String, elem,
  is_empty, if◌then◌else◌, codes, leb, ltb, ◌==◌, ℤ, pos, sub_ℕ, two63, Result, ok, err,
}

-- os.LookupEnv
abbrev pub Environment : Type 0
Environment = String → Option String

-- os.Getenv
abbrev pub getenv : Environment → String → String
getenv env key = elim (env key) [ none ↦ "" | some value ↦ value ]

-- envOr
unfoldable pub env_or : Environment → String → String → String
env_or env key fallback = if is_empty (getenv env key) then fallback else getenv env key

-- The number that decimal digits stand for, behind those that were read.
unfoldable pub digits_from : ℕ → List ℕ → Option ℕ
digits_from n [] = some n
digits_from n (c ∷ cs) =
    let rest = digits_from (n * 10 + (c - b'0')) cs in
    if leb b'0' c && leb c b'9' then rest else none

abbrev pub digits : List ℕ → Option ℕ
digits [] = none
digits (c ∷ cs) = digits_from 0 (c ∷ cs)

-- A number within the range of int64, with the sign in front of it.
abbrev pub signed : Bool → Option ℕ → Option ℤ
signed negative none = none
signed negative (some n) =
    if negative
    then if leb n two63 then some (sub_ℕ 0 n) else none
    else if ltb n two63
    then some (pos n)
    else none

abbrev pub parse_codes : List ℕ → Option ℤ
parse_codes [] = none
parse_codes (c ∷ cs) =
    if c == b'-'
    then signed true (digits cs)
    else if c == b'+'
    then signed false (digits cs)
    else signed false (digits (c ∷ cs))

-- strconv.ParseInt(raw, 10, 64), and strconv.Atoi, which is the same on 64 bits.
unfoldable pub parse_int : String → Option ℤ
unfolding digits_from
parse_int raw = parse_codes (codes raw)

-- strconv.ParseBool
unfoldable pub parse_bool : String → Option Bool
parse_bool raw =
    if elem raw ("1" ∷ "t" ∷ "T" ∷ "TRUE" ∷ "true" ∷ "True" ∷ [])
    then some true
    else if elem raw ("0" ∷ "f" ∷ "F" ∷ "FALSE" ∷ "false" ∷ "False" ∷ [])
    then some false
    else none

-- What ends the command: the variable and its value, where these are at fault.
pub data Fatal : Type 0 where
  invalid_setting : String → String → Fatal
  tls_set_together : Fatal
  tls_load : String → Fatal
  gateway_failed : String → Fatal
  acme_and_files : Fatal
  acme_failed : Fatal

abbrev pub parsed {ℓ} : {A : Type ℓ} → String → String → Option A → Result Fatal A
parsed key raw none = err (invalid_setting key raw)
parsed key raw (some value) = ok value

-- `if raw := os.Getenv(key); raw != ""`: the parsed value, or the default for a variable that is not
-- set or empty.
unfoldable pub setting {ℓ} :
    {A : Type ℓ} → Environment → String → (String → Option A) → A → Result Fatal A
setting env key parse fallback =
    let raw = getenv env key in if is_empty raw then ok fallback else parsed key raw (parse raw)
