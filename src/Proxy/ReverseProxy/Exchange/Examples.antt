-- ===== src/Proxy/ReverseProxy/Exchange/Examples.antt =====
-- An origin that echoes the request id it was sent, behind gateway/internal/proxy/proxy.go.
use dealer.Base.{ℕ, ◌≡◌, refl, false, Option, none, some, List, [], ◌∷◌, pos}
use dealer.Http.Header as Header
use dealer.Http.Header.{lookup, canonical, is_token, capitalise}
use dealer.Http.Request.{Request}
use dealer.Plugin.Contract.{Env, on_writer}
use dealer.Proxy.ReverseProxy.Exchange.{Response, respond}
use dealer.Proxy.ReverseProxy.Exchange.Ids.{IsCanonical, respond-one_id}
use dealer.Tracing.{middleware, choose_id}

abbrev request : Request
request = record {
  method = "GET";
  path = "/";
  query = [];
  header = [];
  remote_addr = "10.0.0.1:5000";
  content_length = pos 0;
  body = none;
  body_limits = [];
  client_ip = none;
  request_id = none;
  inbound_id = none;
}

abbrev env : Env ℕ
env = record {
  writer = record {
    layers = [];
    conn = record { header = []; sent = none; informational = []; chunks = []; hijacked = false };
  };
  state = 171;
}

abbrev rand : ℕ → Option (List ℕ)
rand b = some (b ∷ [])

abbrev echoing : Response
echoing = record {
  status = 200;
  header = ("Content-Type", "text/plain" ∷ []) ∷ ("X-Request-Id", "ab" ∷ []) ∷ [];
  body = "hello";
}

echoing-IsCanonical : IsCanonical echoing.header
unfolding canonical is_token capitalise
echoing-IsCanonical = (refl, (refl, tt))

respond-one_id_example :
    (h : Header.Header) × ((middleware rand false
        (λ q d. on_writer (respond echoing) d)
        request
        env).writer.conn.sent
      ≡ some (200, h))
    × (lookup "X-Request-Id" h ≡ choose_id false (rand 171) request ∷ [])
respond-one_id_example =
    respond-one_id rand false request env echoing refl refl refl refl echoing-IsCanonical
