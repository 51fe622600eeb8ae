-- ===== src/Loadtest/Stubs.antt =====
-- loadtest/stubs/main.go: the stub origins of a load test. time.ParseDuration, the choice of
-- http.ServeMux between the two patterns and json.NewEncoder are parameters. The goroutines of an
-- origin change its counters atomically, so what happens to it is a sequence of events.
pub mod Counting
mod Examples
use dealer.Base.{
  ℕ, ◌*◌, Bool, Option, none, some, List, [], ◌∷◌, String, is_empty, if◌then◌else◌, ℤ, pos, add64,
  Result, ok, err, ◌>>=◌,
}
use dealer.Command.Environment.{Environment, getenv}
use dealer.Http.Header as Header
use dealer.Http.Request.{Request}
use dealer.Http.Writer.{Writer, write, write_header, with_header}

-- The counters are int64.
pub record Origin : Type 0 where
  pub name : String
  pub addr : String
  pub latency : ℤ
  pub status : ℕ
  pub accepts : ℤ
  pub requests : ℤ

-- `log.Fatalf("stubs: invalid %s %q: %v", key, v, err)`
pub record InvalidDuration : Type 0 where
  pub key : String
  pub value : String

abbrev pub millisecond : ℕ
millisecond = 1_000_000

abbrev pub new_origin : String → String → ℤ → ℕ → Origin
new_origin name addr latency status = record {
  name = name;
  addr = addr;
  latency = latency;
  status = status;
  accepts = pos 0;
  requests = pos 0;
}

module _ (env : Environment) where
  unfoldable pub env_or : String → String → String
  env_or key fallback = let v = getenv env key in if is_empty v then fallback else v

  abbrev pub parsed_duration : String → String → Option ℤ → Result InvalidDuration ℤ
  parsed_duration key v none = err (record { key = key; value = v })
  parsed_duration key v (some d) = ok d

  module _ (parse_duration : String → Option ℤ) where
    unfoldable pub duration_env_or : String → ℤ → Result InvalidDuration ℤ
    duration_env_or key fallback =
        let v = getenv env key in
        if is_empty v then ok fallback else parsed_duration key v (parse_duration v)

    -- The origins of main, or what ends it before one of them listens.
    unfoldable pub origins : Result InvalidDuration (List Origin)
    unfolding env_or duration_env_or
    origins = do
      catalog ← duration_env_or "CATALOG_LATENCY" (pos (15 * millisecond))
      payments ← duration_env_or "PAYMENTS_LATENCY" (pos (40 * millisecond))
      orders ← duration_env_or "ORDERS_LATENCY" (pos (25 * millisecond))
      ok (
          new_origin "catalog" (env_or "CATALOG_ADDR" "0.0.0.0:3001") catalog 200
          ∷ new_origin "payments" (env_or "PAYMENTS_ADDR" "0.0.0.0:3002") payments 201
          ∷ new_origin "orders" (env_or "ORDERS_ADDR" "0.0.0.0:3003") orders 200
          ∷ [])

-- What happens to an origin: its listener returns, or a request comes on a connection.
pub data Event : Type 0 where
  accepting : Bool → Event
  request : Request → Writer → Event

-- countingListener.Accept, with whether the listener below gave a connection.
unfoldable pub accept : Bool → Origin → Origin
accept accepted o = if accepted then record o { accepts = add64 o.accepts (pos 1) } else o

module _ (encode_counts : List (String × ℤ) → String)
    (encode : List (String × String) → String) where
  -- What writes a JSON answer does first.
  abbrev pub as_json : Writer → Writer
  as_json w = with_header (Header.put "Content-Type" "application/json") w

  unfoldable pub stats_handler : Origin → Writer → Writer
  stats_handler o w =
      write (encode_counts (("accepts", o.accepts) ∷ ("requests", o.requests) ∷ [])) (as_json w)

  -- The handler, behind its sleep of o.latency.
  unfoldable pub handler : Request → Origin → Writer → Origin × Writer
  handler r o w = (
    record o { requests = add64 o.requests (pos 1) },
    write
        (encode
          (("service", o.name) ∷ ("method", r.method) ∷ ("path", r.path) ∷ ("status", "ok") ∷ []))
        (write_header o.status (as_json w)),
  )

  module _ (is_stats : Request → Bool) where
    -- mux: `is_stats` is whether http.ServeMux takes the pattern /__stats.
    unfoldable pub serve : Request → Origin → Writer → Origin × Writer
    unfolding stats_handler handler
    serve r o w = if is_stats r then (o, stats_handler o w) else handler r o w

    abbrev pub step : Event → Origin → Origin
    step (accepting accepted) o = accept accepted o
    step (request r w) o = (serve r o w).0

    unfoldable pub run : List Event → Origin → Origin
    unfolding accept serve
    run [] o = o
    run (e ∷ es) o = run es (step e o)
