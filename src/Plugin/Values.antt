-- ===== src/Plugin/Values.antt =====
-- The conversions of a plugin's YAML configuration: toStringSlice of gateway/internal/plugin/cors.go,
-- stringMap of response_headers.go, toInt64 of request_size_limiting.go, toFloat64 of
-- rate_limiting.go. A map is read in the order of its entries.
pub mod Typing
use dealer.Base.{
  ℕ, zero, suc, ◌/◌, ◌%◌, Bool, Option, none, some, List, [], ◌∷◌, String, append, if◌then◌else◌,
  ltb, ℤ, pos, negsuc, Result, ok, err, ◌>>=◌,
}
use Prim.Native.String.{char_at}
use dealer.Config.Types.{
  Value, Values, Entries, nil, int, int64, float, text, list, dict, end, item, empty, entry, get,
}

pub data PluginError : Type 0 where
  unknown_plugin : String → PluginError
  required : String → PluginError
  must_be_list : String → PluginError
  must_be_map : String → PluginError
  must_be_string : String → PluginError
  must_be_number : String → PluginError
  out_of_range : String → PluginError
  credentials_with_wildcard : PluginError
  env_not_set : String → PluginError
  bad_mode : String → PluginError
  store_failed : String → PluginError

-- `if bad { return nil, e }`
abbrev pub guard : Bool → PluginError → Result PluginError (Unit {0})
guard bad e = if bad then err e else ok tt

-- Go's float64 with what the plugins use of it. `to_int` is the conversion to int64, `of_int` the
-- one from it; `seconds` is a Duration's number of seconds.
pub record Float : Type 1 where
  pub F : Type 0
  pub of_int : ℤ → F
  pub to_int : F → ℤ
  pub add : F → F → F
  pub sub : F → F → F
  pub mul : F → F → F
  pub lt : F → F → Bool
  pub le : F → F → Bool
  pub seconds : ℤ → F

module _ {F : Type 0} where
  unfoldable pub strings_of : String → Values F → Result PluginError (List String)
  strings_of key end = ok []
  strings_of key (item (text s) vs) = do rest ← strings_of key vs; ok (s ∷ rest)
  strings_of key (item v vs) = err (must_be_string key)

  unfoldable pub list_of : String → Option (Value F) → Result PluginError (List String)
  unfolding strings_of
  list_of key none = ok []
  list_of key (some nil) = ok []
  list_of key (some (list vs)) = strings_of key vs
  list_of key (some v) = err (must_be_list key)

  -- toStringSlice; nil and the empty slice have the same length, which is all that is asked.
  unfoldable pub to_string_slice : Entries F → String → Result PluginError (List String)
  unfolding list_of get
  to_string_slice cfg key = list_of key (get cfg key)

  unfoldable pub headers_of : String → Entries F → Result PluginError (List (String × String))
  headers_of field empty = ok []
  headers_of field (entry k (text s) es) = do rest ← headers_of field es; ok ((k, s) ∷ rest)
  headers_of field (entry k v es) = err (must_be_string field)

  -- stringMap
  unfoldable pub string_map :
      String → Option (Value F) → Result PluginError (List (String × String))
  unfolding headers_of
  string_map field none = ok []
  string_map field (some nil) = ok []
  string_map field (some (dict es)) = headers_of field es
  string_map field (some v) = err (must_be_map field)

module _ (fl : Float) where
  open fl use {F, of_int, to_int}

  unfoldable pub to_int64 : String → Value F → Result PluginError ℤ
  to_int64 field (int n) = ok n
  to_int64 field (int64 n) = ok n
  to_int64 field (float x) = ok (to_int x)
  to_int64 field v = err (must_be_number field)

  unfoldable pub to_float64 : String → Value F → Result PluginError F
  to_float64 field (int n) = ok (of_int n)
  to_float64 field (int64 n) = ok (of_int n)
  to_float64 field (float x) = ok x
  to_float64 field v = err (must_be_number field)

-- strconv.FormatInt in base 10: twenty digits are enough for an int64.
unfoldable pub format_digits : ℕ → ℕ → String → String
format_digits zero n s = s
format_digits (suc fuel) n s =
    let longer = String.◌∷◌ (char_at "0123456789" (n % 10)) s in
    let rest = format_digits fuel (n / 10) longer in if ltb n 10 then longer else rest

unfoldable pub format_int : ℤ → String
unfolding format_digits
format_int (pos n) = format_digits 20 n ""
format_int (negsuc n) = append "-" (format_digits 20 (suc n) "")
