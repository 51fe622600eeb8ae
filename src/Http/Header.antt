-- ===== src/Http/Header.antt =====
-- http.Header: values under canonical keys. The map is an association list.
use Prim.Native.Char.{Char, code}
use Prim.Native.String.{char_at}
use dealer.Base.{
  ℕ, ◌-◌, ◌≡◌, refl, Bool, true, ◌&&◌, ◌||◌, List, [], ◌∷◌, ◌++◌, String, str_eq, eq_iff, leb, ◌==◌,
  if◌then◌else◌, arith, to_lower_char,
}

-- The characters of a token, which a header's key may have.
abbrev pub is_symbol : ℕ → Bool
is_symbol c =
    c == b'!'
    || c == b'#'
    || c == b'$'
    || c == b'%'
    || c == b'&'
    || c == 39
    || c == b'*'
    || c == b'+'
    || c == b'-'
    || c == b'.'
    || c == b'^'
    || c == b'_'
    || c == b'`'
    || c == b'|'
    || c == b'~'

unfoldable pub is_token_char : ℕ → Bool
is_token_char c =
    (leb b'a' c && leb c b'z')
    || (leb b'A' c && leb c b'Z')
    || (leb b'0' c && leb c b'9')
    || is_symbol c

unfoldable pub is_token : String → Bool
unfolding is_token_char
is_token String.[] = true
is_token (String.◌∷◌ c s) = is_token_char (code c) && is_token s

abbrev pub to_upper_char : Char → Char
to_upper_char c =
    if leb b'a' (code c) && leb (code c) b'z'
    then char_at "ABCDEFGHIJKLMNOPQRSTUVWXYZ" (code c - b'a')
    else c

unfoldable pub capitalise : Bool → String → String
capitalise upper String.[] = ""
capitalise upper (String.◌∷◌ c s) =
    String.◌∷◌ (if upper then to_upper_char c else to_lower_char c) (capitalise (code c == b'-') s)

-- textproto.CanonicalMIMEHeaderKey
unfoldable pub canonical : String → String
unfolding is_token capitalise
canonical key = if is_token key then capitalise true key else key

abbrev pub Header : Type 0
Header = List (String × List String)

unfoldable pub lookup : String → Header → List String
lookup key [] = []
lookup key ((k, vs) ∷ h) = if str_eq k key then vs else lookup key h

unfoldable pub insert : String → List String → Header → Header
insert key vs [] = (key, vs) ∷ []
insert key vs ((k, ws) ∷ h) = if str_eq k key then (k, vs) ∷ h else (k, ws) ∷ insert key vs h

unfoldable pub delete : String → Header → Header
delete key [] = []
delete key ((k, ws) ∷ h) = if str_eq k key then delete key h else (k, ws) ∷ delete key h

abbrev pub first : List String → String
first [] = ""
first (v ∷ vs) = v

-- Header.Values, Get, Set, Add, Del
abbrev pub values : Header → String → List String
values h key = lookup (canonical key) h

abbrev pub get : Header → String → String
get h key = first (lookup (canonical key) h)

abbrev pub put : String → String → Header → Header
put key value h = insert (canonical key) (value ∷ []) h

abbrev pub add : String → String → Header → Header
add key value h = insert (canonical key) (lookup (canonical key) h ++ value ∷ []) h

abbrev pub del : String → Header → Header
del key h = delete (canonical key) h

pub lookup-insert :
    (k j : String) (vs : List String) (h : Header)
    → lookup j (insert k vs h) ≡ (if str_eq k j then vs else lookup j h)
unfolding lookup insert
lookup-insert k j vs [] = refl
lookup-insert k j vs ((i, ws) ∷ h) =
    ground (arith, eq_iff k j, eq_iff i k, eq_iff i j, lookup-insert k j vs h)

pub lookup-delete :
    (k j : String) (h : Header) → lookup j (delete k h) ≡ (if str_eq k j then [] else lookup j h)
unfolding lookup delete
lookup-delete k j [] = ground arith
lookup-delete k j ((i, ws) ∷ h) =
    ground (arith, eq_iff k j, eq_iff i k, eq_iff i j, lookup-delete k j h)

canonical_keys :
    (canonical "x-request-id" ≡ "X-Request-Id")
    × (canonical "content-TYPE" ≡ "Content-Type")
    × (canonical "a b" ≡ "a b")
unfolding canonical is_token capitalise
canonical_keys = (refl, refl, refl)
