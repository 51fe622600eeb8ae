-- ===== src/Plugin/RateLimit/Isolation.antt =====
-- Keys do not share tokens: gateway/internal/plugin/rate_limiting.go.
use dealer.Base.{
  ℕ, ◌+◌, ◌%◌, ◌≡◌, ◌≢◌, false, not, ◌==◌, Option, none, some, String, eq_iff, arith, if◌then◌else◌,
  two64,
}
use dealer.Plugin.Values.{Float}
use dealer.Plugin.RateLimit.{
  Visitor, Visitors, MemoryStore, find, one, refill, visit, allow_memory, sweep_every,
}
use dealer.Plugin.RateLimit.Bucket.{find-store}

module _ (fl : Float) where
  open fl use {F, lt, sub}

  visit-others :
      (key other : String) (rps burst : F) (now : ℕ) (vs : Visitors F) (found : Option (Visitor F))
      → key ≢ other
      → find other (visit fl key rps burst now vs found).0 ≡ find other vs
  unfolding visit
  visit-others key other rps burst now vs none n = ground (
    arith,
    eq_iff key other,
    find-store key other (record { tokens = sub burst (one fl); last_seen = now }) vs,
  )
  visit-others key other rps burst now vs (some v) n = ground (
    arith,
    eq_iff key other,
    find-store key other (record { tokens = refill fl rps burst now v; last_seen = now }) vs,
    find-store key other
        (record { tokens = sub (refill fl rps burst now v) (one fl); last_seen = now }) vs,
  )

  -- A request of one client that is not the sweeping one leaves what is stored for every other
  -- client alone.
  pub allow_memory-others :
      (key other : String) (rps burst : F) (now : ℕ) (s : MemoryStore F)
      → key ≢ other
      → ((s.calls + 1) % two64 % sweep_every == 0) ≡ false
      → find other (allow_memory fl key rps burst now s).0.visitors ≡ find other s.visitors
  unfolding allow_memory
  allow_memory-others key other rps burst now s n idle =
      rw idle (visit-others key other rps burst now s.visitors (find key s.visitors) n)

  -- The answer for a client that is known, by a request that is not the sweeping one: refused
  -- exactly if less than one token is there once refilled; the tokens left are the refilled ones,
  -- less one if it is let through.
  pub allow_memory_known :
      (key : String) (rps burst : F) (now : ℕ) (s : MemoryStore F) (v : Visitor F)
      → find key s.visitors ≡ some v
      → ((s.calls + 1) % two64 % sweep_every == 0) ≡ false
      → ((allow_memory fl key rps burst now s).1 ≡ not (lt (refill fl rps burst now v) (one fl)))
        × (find key (allow_memory fl key rps burst now s).0.visitors
            ≡ some (record {
              tokens =
                  if lt (refill fl rps burst now v) (one fl)
                  then refill fl rps burst now v
                  else sub (refill fl rps burst now v) (one fl);
              last_seen = now;
            }))
  unfolding allow_memory visit
  allow_memory_known key rps burst now s v k idle = (
    ground arith,
    ground (
      arith,
      eq_iff key key,
      find-store key key (record { tokens = refill fl rps burst now v; last_seen = now })
          s.visitors,
      find-store key key
          (record { tokens = sub (refill fl rps burst now v) (one fl); last_seen = now })
          s.visitors,
    ),
  )
