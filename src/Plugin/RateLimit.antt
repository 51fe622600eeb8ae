-- ===== src/Plugin/RateLimit.antt =====
-- gateway/internal/plugin/rate_limiting.go and ratelimit_sugardb.go. A method of a store returns the
-- new store. The map of visitors is an association list; the embedded SugarDB is a parameter: a
-- state `D` with the effect and the answer of Incr (none on an error) and of Expire (false on an
-- error).
pub mod Bucket
pub mod Isolation
pub mod Staleness
pub mod Clients
mod Examples
use dealer.Base.{
  ℕ, ◌+◌, ◌%◌, Bool, true, false, not, ◌==◌, ◌&&◌, ◌||◌, Option, none, some, List, [], ◌∷◌, String,
  str_eq, is_empty, append, if◌then◌else◌, ℤ, pos, ltb_ℤ, leb_ℤ, sub_time, two64, Result, ok, err,
  ◌>>=◌, ◌>>◌,
}
use dealer.Config.Types.{Entries, get, Value}
use dealer.Http.Request.{Request}
use dealer.Http.Writer.{http_error}
use dealer.Plugin.Contract.{Env, Handler, Plugin, on_writer}
use dealer.Plugin.JwtAuth.{text_or_empty}
use dealer.Plugin.Values.{
  PluginError, required, out_of_range, bad_mode, store_failed, guard, Float, to_float64,
}

abbrev pub stale_after : ℤ
stale_after = pos 600_000_000_000

abbrev pub sweep_every : ℕ
sweep_every = 1000

pub record Visitor (F : Type 0) : Type 0 where
  pub tokens : F
  pub last_seen : ℕ

abbrev pub Visitors : Type 0 → Type 0
Visitors F = List (String × Visitor F)

pub record MemoryStore (F : Type 0) : Type 0 where
  pub visitors : Visitors F
  pub calls : ℕ  -- uint64

unfoldable pub new_memory_store : {F : Type 0} → MemoryStore F
new_memory_store = record { visitors = []; calls = 0 }

unfoldable pub find : {F : Type 0} → String → Visitors F → Option (Visitor F)
find key [] = none
find key ((k, v) ∷ vs) = if str_eq k key then some v else find key vs

unfoldable pub store : {F : Type 0} → String → Visitor F → Visitors F → Visitors F
store key v [] = (key, v) ∷ []
store key v ((k, w) ∷ vs) = if str_eq k key then (k, v) ∷ vs else (k, w) ∷ store key v vs

-- sweepLocked
unfoldable pub sweep : {F : Type 0} → ℕ → Visitors F → Visitors F
sweep now [] = []
sweep now ((k, v) ∷ vs) =
    let rest = sweep now vs in
    if ltb_ℤ stale_after (sub_time now v.last_seen) then rest else (k, v) ∷ rest

module _ (fl : Float) where
  open fl use {F, of_int, add, sub, mul, lt, le, seconds}

  abbrev pub one : F
  one = of_int (pos 1)

  -- The tokens of a visitor that comes again, before one is taken.
  unfoldable pub refill : F → F → ℕ → Visitor F → F
  refill requests_per_second burst now v =
      let tokens = add v.tokens (mul (seconds (sub_time now v.last_seen)) requests_per_second) in
      if lt burst tokens then burst else tokens

  -- What is done about the visitor of the key.
  unfoldable pub visit : String → F → F → ℕ → Visitors F → Option (Visitor F) → Visitors F × Bool
  unfolding refill store
  visit key requests_per_second burst now vs none =
      (store key (record { tokens = sub burst one; last_seen = now }) vs, true)
  visit key requests_per_second burst now vs (some v) =
      let tokens = refill requests_per_second burst now v in
      if lt tokens one
      then (store key (record { tokens = tokens; last_seen = now }) vs, false)
      else (store key (record { tokens = sub tokens one; last_seen = now }) vs, true)

  -- memoryStore.allow
  unfoldable pub allow_memory : String → F → F → ℕ → MemoryStore F → MemoryStore F × Bool
  unfolding visit sweep find
  allow_memory key requests_per_second burst now s =
      let calls = (s.calls + 1) % two64 in
      let vs = if calls % sweep_every == 0 then sweep now s.visitors else s.visitors in
      let outcome = visit key requests_per_second burst now vs (find key vs) in
      (record { visitors = outcome.0; calls = calls }, outcome.1)

  -- The two stores that a plugin may have.
  pub data StoreKind : Type 0 where
    memory : StoreKind
    namespaced : String → StoreKind

  pub record RateLimiting : Type 0 where
    pub requests_per_second : F
    pub burst : F
    pub kind : StoreKind

  abbrev pub burst_of : F → Option (Value F) → Result PluginError F
  burst_of rps none = ok rps
  burst_of rps (some raw) = to_float64 fl "rate_limiting: config.burst" raw >>= λ burst.
      (if lt burst one then err (out_of_range "rate_limiting: config.burst") else ok burst)

  -- `shared` is whether getSharedSugarDBStore succeeds.
  abbrev pub store_of : Bool → String → String → Result PluginError StoreKind
  store_of shared instance_id mode =
      if is_empty mode || str_eq mode "memory"
      then ok memory
      else if str_eq mode "distributed"
      then if shared then ok (namespaced instance_id) else err (store_failed instance_id)
      else err (bad_mode mode)

  abbrev pub rps_of : Option (Value F) → Result PluginError F
  rps_of none = err (required "rate_limiting: config.requests_per_second")
  rps_of (some raw) = to_float64 fl "rate_limiting: config.requests_per_second" raw >>= λ rps.
      (if le rps (of_int (pos 0))
        then err (out_of_range "rate_limiting: config.requests_per_second")
        else ok rps)

  unfoldable pub new_rate_limiting : Bool → Entries F → String → Result PluginError RateLimiting
  unfolding get to_float64
  new_rate_limiting shared cfg instance_id = do
    rps ← rps_of (get cfg "requests_per_second")
    burst ← burst_of rps (get cfg "burst")
    kind ← store_of shared instance_id (text_or_empty (get cfg "mode"))
    ok (record { requests_per_second = rps; burst = burst; kind = kind })

  module _ {D : Type 0} (incr : String → D → D × Option ℤ) (expire : String → D → D × Bool) where
    abbrev pub limit_of : F → ℤ
    limit_of burst = let limit = fl.to_int burst in if ltb_ℤ limit (pos 1) then pos 1 else limit

    -- sugarDBStore.allow behind the key's expiry.
    abbrev pub counted : ℤ → String → D × Option ℤ → D × Bool
    counted limit key (d, none) = (d, false)
    counted limit key (d, some count) =
        if leb_ℤ count (pos 1) && leb_ℤ (pos 1) count
        then if (expire key d).1
          then ((expire key d).0, leb_ℤ count limit)
          else ((expire key d).0, false)
        else (d, leb_ℤ count limit)

    unfoldable pub allow_sugar_db : String → F → F → ℕ → D → D × Bool
    allow_sugar_db key requests_per_second burst now d = counted (limit_of burst) key (incr key d)

    -- namespacedStore.allow
    unfoldable pub allow_namespaced : String → String → F → F → ℕ → D → D × Bool
    unfolding allow_sugar_db
    allow_namespaced prefix key requests_per_second burst now d =
        allow_sugar_db (append prefix (append ":" key)) requests_per_second burst now d

    -- What the plugins of a process share: the plugin's memory store and the
    -- embedded database.
    pub record Stores : Type 0 where
      pub memory_store : MemoryStore F
      pub database : D

    unfoldable pub allow : RateLimiting → String → ℕ → Stores → Stores × Bool
    unfolding allow_memory allow_namespaced
    allow p key now s = elim p.kind [
      | memory ↦
          let outcome = allow_memory key p.requests_per_second p.burst now s.memory_store in
          (record s { memory_store = outcome.0 }, outcome.1)
      | namespaced prefix ↦
          let outcome = allow_namespaced prefix key p.requests_per_second p.burst now s.database in
          (record s { database = outcome.0 }, outcome.1)
    ]

    -- Wrap: the stores lie in the handlers' state, which also tells the time; `client` is
    -- clientip.FromRequest.
    module _ {S : Type 0} (read : S → Stores) (update : Stores → S → S) (clock : S → ℕ)
        (client : Request → String) where
      unfoldable pub wrap_rate_limiting : RateLimiting → Handler S → Handler S
      wrap_rate_limiting p next r e =
          let outcome = allow p (client r) (clock e.state) (read e.state) in
          let e' = record e { state = update outcome.0 e.state } in
          if not outcome.1 then on_writer (http_error "rate limit exceeded" 429) e' else next r e'
