-- ===== src/Gateway/Pipeline/Sample.antt =====
-- A gateway of gateway/gateway.go with one guarded service, as test data.
use Prim.Native.Nat.{◌*◌}
use dealer.Base.{
  ℕ, ◌+◌, ◌-◌, true, false, Option, none, some, List, [], ◌∷◌, String, str_eq, if◌then◌else◌, ltb,
  leb, pos, pos_part, ok,
}
use dealer.ClientIp.{NetIp}
use dealer.Gateway.Assembly.{ServiceHandler}
use dealer.Gateway.Pipeline.{Outside, World, State}
use dealer.Http.Request.{Request}
use dealer.Http.Writer.{write, write_header}
use dealer.Plugin.Contract.{Env, Handler}
use dealer.Plugin.HttpLog.{new_writer}
use dealer.Plugin.JwtAuth.{JwtAuth}
use dealer.Plugin.RateLimit.{new_memory_store}
use dealer.Plugin.Registry.{Built}
use dealer.Plugin.Values.{Float}
use dealer.Proxy.Origin.{new_origin_state}

abbrev pub numbers : Float
numbers = record {
  F = ℕ;
  of_int = pos_part;
  to_int = λ x. pos x;
  add = λ x y. x + y;
  sub = λ x y. x - y;
  mul = λ x y. x * y;
  lt = ltb;
  le = leb;
  seconds = pos_part;
}

-- Addresses are texts, and no prefix is known.
abbrev pub addresses : NetIp
addresses = record {
  Addr = String;
  Prefix = String;
  parse_addr = λ text. some text;
  parse_prefix = λ text. none;
  masked = λ p. p;
  whole = λ a. a;
  unmap = λ a. a;
  show = λ a. a;
  contains = λ p a. str_eq p a;
  split_host = λ text. some text;
}

abbrev pub Counted : Type 0
Counted = World ℕ (Unit {0}) (List ℕ)

-- The one good token is "good"; every origin answers 200.
abbrev pub surroundings : Outside ℕ (Unit {0}) (List ℕ)
surroundings = record {
  ip = addresses;
  jwt_parse = λ token key. if str_eq token "good" then some true else none;
  incr = λ key d. (d, none);
  expire = λ key d. (d, false);
  format_time = λ t. "now";
  rand = λ w. some (171 ∷ 205 ∷ []);
  instruments = record {
    now = λ w. w.time;
    observe = λ service method elapsed w. w;
    inc = λ service method status w. record w { observed = status ∷ w.observed };
  };
  tracer = record { start = λ name w. w; set_attribute = λ key value w. w; finish = λ w. w };
  dial = λ r o. ok (λ w. write "shop" (write_header 200 w));
  encode = λ m. "bad gateway";
  delay = λ r. 1;
}

abbrev pub auth : JwtAuth
auth = record { secret = "s" }

abbrev pub guarded_shop : ServiceHandler numbers
guarded_shop = record {
  service = "shop";
  plugins =
      Built.request_size_limiting (record { max_bytes = pos 100 })
      ∷ Built.http_log
      ∷ Built.jwt_auth auth
      ∷ Built.add_header (record { headers = ("X-Env", "test") ∷ [] })
      ∷ [];
  proxy = record {
    name = "shop";
    origins = record { url = "http://a"; state = new_origin_state } ∷ [];
    cooldown = pos 10;
    breaker = record { threshold = pos 3; cooldown = pos 30 };
    next = 0;
  };
  retry = record { max_attempts = pos 1; retry_unsafe = false; backoff_base = pos 1 };
  prober = none;
  preserve_request_id = true;
}

abbrev pub to_shop : Request → Option (ℕ × ServiceHandler numbers)
to_shop r = some (0, guarded_shop)

abbrev pub missing : Handler (State numbers surroundings)
missing r e = e

abbrev pub world : Counted
world = record {
  services = λ j. record {
    proxy = guarded_shop.proxy;
    stores = λ i. new_memory_store;
    logs = λ i. new_writer;
  };
  database = tt;
  observed = [];
  time = 5;
}

abbrev pub env : Env Counted
env = record {
  writer = record {
    layers = [];
    conn = record { header = []; sent = none; informational = []; chunks = []; hijacked = false };
  };
  state = world;
}

abbrev pub request : String → Request
request authorization = record {
  method = "GET";
  path = "/shop";
  query = [];
  header = ("Authorization", authorization ∷ []) ∷ [];
  remote_addr = "10.0.0.1";
  content_length = pos 0;
  body = none;
  body_limits = [];
  client_ip = none;
  request_id = none;
  inbound_id = none;
}
