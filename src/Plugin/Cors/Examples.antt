-- ===== src/Plugin/Cors/Examples.antt =====
-- The cors plugin's theorems at a concrete configuration.
use Prim.Native.Nat.{◌*◌}
use dealer.Base.{
  ℕ, ◌+◌, ◌-◌, ◌≡◌, ◌↔◌, refl, true, false, none, [], ◌∷◌, String, ltb, leb, pos, pos_part, ok, err,
}
use dealer.Config.Types.{Entries, empty, entry, item, end, list, text, bool}
use dealer.Http.Header as Header
use dealer.Http.Request.{Request}
use dealer.Plugin.Contract.{Env}
use dealer.Plugin.Values.{Float, credentials_with_wildcard}
use dealer.Plugin.Cors.{Cors, new_cors}
use dealer.Plugin.Cors.Configuration.{Describes, new_cors-ok_iff}

-- Whole numbers in place of the floats, which no configuration below has.
abbrev numbers : Float
numbers = record {
  F = ℕ;
  of_int = λ n. pos_part n;
  to_int = λ n. pos n;
  add = λ a b. a + b;
  sub = λ a b. a - b;
  mul = λ a b. a * b;
  lt = ltb;
  le = leb;
  seconds = λ d. pos_part d;
}

abbrev cors_config : String → Entries ℕ
cors_config origin =
    entry "allowed_origins" (list (item (text origin) end))
      (entry "allow_credentials" (bool true) empty)

abbrev shop : Cors
shop = record {
  allowed_origins = "https://shop.example" ∷ [];
  allowed_methods = [];
  allowed_headers = [];
  allow_credentials = true;
  max_age = "";
}

wildcard_refused : new_cors numbers (cors_config "*") ≡ err credentials_with_wildcard
unfolding new_cors
wildcard_refused = refl

abbrev preflight : Request
preflight = record {
  method = "OPTIONS";
  path = "/cart";
  query = [];
  header =
      ("Origin", "https://shop.example" ∷ []) ∷ ("Access-Control-Request-Method", "PUT" ∷ []) ∷ [];
  remote_addr = "10.0.0.1:1";
  content_length = pos 0;
  body = none;
  body_limits = [];
  client_ip = none;
  request_id = none;
  inbound_id = none;
}

abbrev env : Env ℕ
env = record {
  writer = record {
    layers = [];
    conn = record { header = []; sent = none; informational = []; chunks = []; hijacked = false };
  };
  state = 0;
}

new_cors-ok_iff_example :
    (new_cors numbers (cors_config "https://shop.example") ≡ ok shop)
    ↔ Describes numbers (cors_config "https://shop.example") shop
new_cors-ok_iff_example = new_cors-ok_iff numbers (cors_config "https://shop.example") shop
