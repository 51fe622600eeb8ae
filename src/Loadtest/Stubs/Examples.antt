-- ===== src/Loadtest/Stubs/Examples.antt =====
-- A stub origin of a load test that counts.
use dealer.Base.{
  ◌≡◌, refl, Bool, true, false, none, some, List, [], ◌∷◌, String, str_eq, if◌then◌else◌, ℤ, pos,
  err, arith,
}
use dealer.Http.Header as Header
use dealer.Http.Request.{Request}
use dealer.Http.Writer.{Writer, write, with_header}
use dealer.Loadtest.Stubs.{Event, accepting, request, serve, run, new_origin, origins}
use dealer.Loadtest.Stubs.Counting.{serve-stats}

abbrev encode_counts : List (String × ℤ) → String
encode_counts m = "counts"

abbrev encode : List (String × String) → String
encode m = "ok"

abbrev is_stats : Request → Bool
is_stats r = str_eq r.path "/__stats"

abbrev get_path : String → Request
get_path path = record {
  method = "GET";
  path = path;
  query = [];
  header = [];
  remote_addr = "10.0.0.1:1";
  content_length = pos 0;
  body = none;
  body_limits = [];
  client_ip = none;
  request_id = none;
  inbound_id = none;
}

abbrev writer : Writer
writer = record {
  layers = [];
  conn = record { header = []; sent = none; informational = []; chunks = []; hijacked = false };
}

-- Two requests on one connection, and one for the statistics between them.
abbrev events : List Event
events =
    accepting true
    ∷ request (get_path "/orders") writer
    ∷ accepting false
    ∷ request (get_path "/__stats") writer
    ∷ request (get_path "/orders") writer
    ∷ []

serve-stats_example :
    serve encode_counts encode is_stats
      (get_path "/__stats")
      (run encode_counts encode is_stats events (new_origin "orders" ":3003" (pos 25) 200))
      writer
    ≡ (
      run encode_counts encode is_stats events (new_origin "orders" ":3003" (pos 25) 200),
      write
          (encode_counts (("accepts", pos 1) ∷ ("requests", pos 2) ∷ []))
          (with_header (Header.put "Content-Type" "application/json") writer),
    )
serve-stats_example =
    serve-stats encode_counts encode is_stats events "orders" ":3003" (pos 25) 200
      (get_path "/__stats") writer (omega arith) refl

-- A latency that does not parse ends the program.
bad_latency :
    origins (λ key. if str_eq key "ORDERS_LATENCY" then some "soon" else none) (λ raw. none)
    ≡ err (record { key = "ORDERS_LATENCY"; value = "soon" })
unfolding origins
bad_latency = refl
