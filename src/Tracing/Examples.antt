-- ===== src/Tracing/Examples.antt =====
-- The request id's theorems at a concrete request.
use dealer.Base.{ℕ, ◌≡◌, refl, false, Option, none, some, List, [], ◌∷◌, pos}
use dealer.Http.Request.{Request}
use dealer.Plugin.Contract.{Env}
use dealer.Tracing.{choose_id}

abbrev request : Request
request = record {
  method = "GET";
  path = "/";
  query = [];
  header = ("X-Request-Id", "abc" ∷ []) ∷ [];
  remote_addr = "10.0.0.1:5000";
  content_length = pos 0;
  body = none;
  body_limits = [];
  client_ip = none;
  request_id = none;
  inbound_id = none;
}

-- The state is the byte that the generator gives.
abbrev env : Env ℕ
env = record {
  writer = record {
    layers = [];
    conn = record { header = []; sent = none; informational = []; chunks = []; hijacked = false };
  };
  state = 171;
}

abbrev rand : ℕ → Option (List ℕ)
rand b = some (b ∷ [])

generated : choose_id false (rand 171) request ≡ "ab"
unfolding choose_id
generated = refl
