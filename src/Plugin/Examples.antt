-- ===== src/Plugin/Examples.antt =====
-- The plugins' theorems at concrete configurations and requests.
use dealer.Base.{ℕ, ◌+◌, ◌≡◌, refl, Bool, false, Option, none, [], ◌∷◌, String, pos}
use dealer.Http.Header as Header
use dealer.Http.Request.{Request}
use dealer.Http.Writer.{Conn, ResponseHeaders, http_error}
use dealer.Plugin.Contract.{Env, Handler, Plugin, on_writer}
use dealer.Plugin.AddHeader.{add_header_plugin}
use dealer.Plugin.SizeLimit.{RequestSizeLimiting}
use dealer.Plugin.JwtAuth.{JwtAuth, jwt_auth_plugin, extract_token}
use dealer.Plugin.JwtAuth.Access.{IsAccepted}

abbrev request : Request
request = record {
  method = "GET";
  path = "/";
  query = [];
  header = [];
  remote_addr = "10.0.0.1:5000";
  content_length = pos 20;
  body = none;
  body_limits = [];
  client_ip = none;
  request_id = none;
  inbound_id = none;
}

abbrev fresh_conn : Conn
fresh_conn = record { header = []; sent = none; informational = []; chunks = []; hijacked = false }

-- The state of the handlers counts the requests that reach the origin.
abbrev start : Env ℕ
start = record { writer = record { layers = []; conn = fresh_conn }; state = 0 }

abbrev origin_handler : Handler ℕ
origin_handler r e = record e { state = e.state + 1 }

-- No token is valid.
abbrev reject : String → (Bool → Option String) → Option Bool
reject token key = none

abbrev auth : JwtAuth
auth = record { secret = "s3cret" }

abbrev unauthorised : Env ℕ
unauthorised = on_writer (http_error "missing jwt" 401) start

rejects : ¬ (IsAccepted reject auth request)
unfolding extract_token Header.lookup
rejects h = h.0 refl

abbrev tagger : Plugin ℕ
tagger = add_header_plugin (record { headers = ("X-Env", "test") ∷ [] })

abbrev tag : Request → Request
tag r = record r { header = Header.put "X-Env" "test" r.header }

tagger_passes : (next : Handler ℕ) → tagger.wrap next request start ≡ next (tag request) start
unfolding add_header_plugin
tagger_passes next = refl

auth_blocks :
    (next : Handler ℕ) → (jwt_auth_plugin reject auth).wrap next (tag request) start ≡ unauthorised
unfolding jwt_auth_plugin extract_token Header.lookup Header.insert Header.canonical
auth_blocks next = refl

abbrev outer_limit : RequestSizeLimiting
outer_limit = record { max_bytes = pos 100 }

abbrev inner_limit : RequestSizeLimiting
inner_limit = record { max_bytes = pos 10 }

abbrev server_header : ResponseHeaders
server_header = record { headers = ("Server", "dealer") ∷ []; rules = [] }
