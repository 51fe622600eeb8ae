-- ===== src/Gateway/Examples.antt =====
-- The theorems on the routes, on what a service's handler is made of and on hot reloads, at a
-- concrete configuration.
use Prim.Native.Nat.{◌*◌}
use dealer.Base.{
  Bool, not, elem, ℕ, ◌+◌, ◌-◌, ◌≡◌, refl, true, false, Option, none, some, List, [], ◌∷◌, String,
  str_eq, if◌then◌else◌, ◌↔◌, done, ltb, leb, ℤ, pos, pos_part, Result, ok, err,
}
use dealer.ClientIp as ClientIp
use dealer.ClientIp.{NetIp, parse}
use dealer.Config.Parse.{has_bad_interval}
use dealer.Config.Types.{
  Config, Service, HealthCheckConfig, empty, entry, item, end, list, text, int,
}
use dealer.Gateway.Pipeline.{serve}
use dealer.Gateway.Pipeline.Oversize.{too_large, serve-too_large}
use dealer.Gateway.Pipeline.Sample.{surroundings, missing, request, env}
use dealer.Http.Request.{Request}
use dealer.Metrics as Metrics
use dealer.Tracing as Tracing
use dealer.Tracing.Otel.{span_middleware}
use dealer.Gateway.Options.{ResolvedOptions, Options, resolve_options}
use dealer.Gateway.Assembly.{ServiceHandler, ProberSettings, prober_of, handler_for}
use dealer.Gateway.Assembly.Probers.{HasBadInterval, prober_of-panics_iff}
use dealer.Gateway.Generations.{Gateway, start}
use dealer.Plugin.Cors.{new_cors}
use dealer.Plugin.Registry as Registry
use dealer.Plugin.Registry.{Built, name_of}
use dealer.Plugin.SizeLimit.{new_request_size_limiting}
use dealer.Plugin.Values.{Float}
use dealer.Proxy.LoadBalancer.{Url, new_origin_proxy}
use dealer.Proxy.Health as Health
use dealer.Proxy.Origin.{new_origin_state}
use dealer.Router.{patterns, build}
use dealer.Router.Patterns.{AreAccepted, service_patterns, flat_map, build-patterns}

abbrev numbers : Float
numbers = record {
  F = ℕ;
  of_int = λ n. pos_part n;
  to_int = λ n. pos n;
  add = λ a b. a + b;
  sub = λ a b. a - b;
  mul = λ a b. a * b;
  lt = ltb;
  le = leb;
  seconds = λ d. pos_part d;
}

-- GET and POST, with a cors plugin and a limit of its own.
abbrev shop : Service ℕ
shop = record {
  name = "shop";
  path = "/shop/";
  host = "shop.example";
  origin_url = "http://a";
  origin_urls = [];
  methods = "GET" ∷ "POST" ∷ [];
  plugins =
      record { name = "cors"; config = entry "allowed_origins" (list (item (text "*") end)) empty }
      ∷ record { name = "request_size_limiting"; config = entry "max_bytes" (int (pos 10)) empty }
      ∷ [];
  health_check = none;
  retry_unsafe_methods = true;
  preserve_request_id = true;
}

abbrev config : Config ℕ
config = record { services = shop ∷ [] }

abbrev make_handler : Service ℕ → Result String ℕ
make_handler svc = ok 1

abbrev routes : List (String × ℕ)
routes =
    ("GET shop.example/shop/", 1)
    ∷ ("POST shop.example/shop/", 1)
    ∷ ("OPTIONS shop.example/shop/", 1)
    ∷ []

-- A mux that refuses a pattern only if it has it already.
abbrev is_new : List String → String → Bool
is_new before pattern = not (elem pattern before)

routes_built : build is_new make_handler config.services ≡ some (ok routes)
unfolding build
routes_built = refl

build-patterns_example :
    (patterns routes ≡ flat_map service_patterns config.services)
    × AreAccepted is_new [] (patterns routes)
build-patterns_example = build-patterns is_new make_handler config.services routes routes_built

abbrev options : ResolvedOptions
options = record {
  origin_timeout = pos 10;
  max_body_bytes = pos 100;
  unhealthy_cooldown = pos 10;
  health_check_path = "";
  health_check_interval = pos 10;
  health_check_timeout = pos 2;
  retry_max_attempts = pos 2;
  retry_backoff_base = pos 1;
  breaker_threshold = pos 3;
  breaker_cooldown = pos 30;
}

abbrev no_env : String → String
no_env name = ""

abbrev parse_url : String → Option Url
parse_url s = some (record { scheme = "http"; host = "a" })

abbrev parse_duration : String → Option ℤ
parse_duration s = none

abbrev shop_handler : ServiceHandler numbers
shop_handler = record {
  service = "shop";
  plugins =
      Built.request_size_limiting (record { max_bytes = pos 100 })
      ∷ Built.cors (record {
        allowed_origins = "*" ∷ [];
        allowed_methods = [];
        allowed_headers = [];
        allow_credentials = false;
        max_age = "";
      })
      ∷ Built.request_size_limiting (record { max_bytes = pos 10 })
      ∷ [];
  proxy = record {
    name = "shop";
    origins = record { url = "http://a"; state = new_origin_state } ∷ [];
    cooldown = pos 10;
    breaker = record { threshold = pos 3; cooldown = pos 30 };
    next = 0;
  };
  retry = record { max_attempts = pos 2; retry_unsafe = true; backoff_base = pos 1 };
  prober = none;
  preserve_request_id = true;
}

shop_built :
    handler_for numbers no_env false parse_url parse_duration options shop ≡ ok shop_handler
unfolding handler_for Registry.build new_cors new_request_size_limiting new_origin_proxy
shop_built = refl

abbrev large : Request
large = record (request "Bearer good") { content_length = pos 101 }

abbrev to_built : Request → Option (ℕ × ServiceHandler numbers)
to_built r = some (0, shop_handler)

serve-too_large_example :
    serve numbers surroundings to_built missing none false large env
    ≡ ClientIp.middleware surroundings.ip none
        (Tracing.middleware surroundings.rand false (
          span_middleware surroundings.tracer
            (Metrics.wrap surroundings.instruments shop.name too_large)))
        large
        env
serve-too_large_example =
    serve-too_large numbers surroundings no_env false parse_url parse_duration options shop
      shop_handler shop_built 0 to_built missing none false large env (λ q method path. refl) refl

-- A routing table is its number of services; the empty configuration does not build.
abbrev compile : Config ℕ → Result String ℕ
compile cfg = elim cfg.services [ [] ↦ err "no service" | svc ∷ svcs ↦ ok 1 ]

abbrev gateway : Gateway ℕ
gateway = record { mux = 1; hosts = "shop.example" ∷ []; generation = 0; running = 0 ∷ [] }

gateway_started : start compile config ≡ ok gateway
unfolding start
gateway_started = refl

abbrev empty_config : Config ℕ
empty_config = record { services = [] }

abbrev no_options : Options
no_options = record {
  poll_interval = pos 0;
  origin_timeout = pos 0;
  max_request_body_bytes = pos 0;
  unhealthy_cooldown = pos 0;
  health_check_path = "/up";
  health_check_interval = pos 0;
  health_check_timeout = pos 0;
  retry_max_attempts = pos 0;
  retry_backoff_base = pos 0;
  breaker_threshold = pos 0;
  breaker_cooldown = pos 0;
  trust_request_id = false;
  trusted_proxies = "";
  otlp_endpoint = "";
  service_name = "";
}

abbrev zero_durations : String → Option ℤ
zero_durations raw = if str_eq raw "0s" then some (pos 0) else none

abbrev check : HealthCheckConfig
check = record { path = ""; interval = "0s" }

abbrev zero_prober : ProberSettings
zero_prober = record { path = "/up"; interval = pos 0; timeout = pos 2_000_000_000 }

abbrev all_up : String → Option ℕ
all_up url = some 200

prober_made :
    prober_of numbers no_env false parse_url zero_durations
      (resolve_options no_options)
      "shop"
      (some check)
    ≡ ok (some zero_prober)
unfolding prober_of resolve_options
prober_made = refl

prober_of-panics_iff_example :
    ((Health.start (record { path = "/up"; interval = pos 0 }) all_up (done ∷ []) [] ≡ none)
      ↔ HasBadInterval zero_durations check)
    × (HasBadInterval zero_durations check → has_bad_interval zero_durations (some check) ≡ false)
prober_of-panics_iff_example =
    prober_of-panics_iff numbers no_env false parse_url zero_durations no_options "shop" check
      zero_prober all_up (done ∷ []) [] prober_made

-- A gateway whose mux is the number of the services.
