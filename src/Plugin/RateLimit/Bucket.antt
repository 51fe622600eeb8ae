-- ===== src/Plugin/RateLimit/Bucket.antt =====
-- The token bucket of gateway/internal/plugin/rate_limiting.go, for every float arithmetic in which
-- taking a token away does not pass the bounds; IEEE 754 is one, NaN included.
use dealer.Base.{
  ℕ, ◌+◌, ◌%◌, ◌≡◌, refl, inl, inr, false, ◌==◌, Option, none, some, [], ◌∷◌, String, str_eq,
  eq_iff, arith, if◌then◌else◌, All, pos, two64, Bool-cases,
}
use dealer.Plugin.Values.{Float}
use dealer.Plugin.RateLimit.{
  Visitor, Visitors, MemoryStore, find, store, sweep, one, refill, visit, allow_memory, sweep_every,
}

-- What is used of float arithmetic.
pub record FloatLaws (fl : Float) : Type 0 where
  -- A number that is not above a bound is not above it with one taken away.
  pub sub_below : (x b : fl.F) → fl.lt b x ≡ false → fl.lt b (fl.sub x (fl.of_int (pos 1))) ≡ false
  -- Nothing is below itself.
  pub lt_irrefl : (x : fl.F) → fl.lt x x ≡ false

pub find-store :
    {F : Type 0} (k j : String) (v : Visitor F) (vs : Visitors F)
    → find j (store k v vs) ≡ (if str_eq k j then some v else find j vs)
unfolding find store
find-store k j v [] = refl
find-store k j v ((i, w) ∷ vs) =
    ground (arith, eq_iff k j, eq_iff i k, eq_iff i j, find-store k j v vs)

module _ (fl : Float) (laws : FloatLaws fl) where
  open fl use {F, lt, sub}

  -- No visitor holds more tokens than the burst.
  abbrev pub IsCapped : F → Visitors F → Type 0
  IsCapped burst vs = All (λ b. lt burst b.1.tokens ≡ false) vs

  refill-le :
      (rps burst : F) (now : ℕ) (v : Visitor F) → lt burst (refill fl rps burst now v) ≡ false
  unfolding refill
  refill-le rps burst now v = ground (arith, laws.lt_irrefl burst)

  store-IsCapped :
      (burst : F) (k : String) (v : Visitor F) (vs : Visitors F)
      → lt burst v.tokens ≡ false
      → IsCapped burst vs
      → IsCapped burst (store k v vs)
  unfolding store
  store-IsCapped burst k v [] h c = (h, tt)
  store-IsCapped burst k v ((j, w) ∷ vs) h c = ground (arith, store-IsCapped burst k v vs h c.1)

  sweep-IsCapped :
      (burst : F) (now : ℕ) (vs : Visitors F) → IsCapped burst vs → IsCapped burst (sweep now vs)
  unfolding sweep
  sweep-IsCapped burst now [] c = tt
  sweep-IsCapped burst now ((j, w) ∷ vs) c = ground (arith, sweep-IsCapped burst now vs c.1)

  visit-IsCapped :
      (key : String) (rps burst : F) (now : ℕ) (vs : Visitors F) (found : Option (Visitor F))
      → IsCapped burst vs
      → IsCapped burst (visit fl key rps burst now vs found).0
  unfolding visit
  visit-IsCapped key rps burst now vs none c =
      store-IsCapped burst key (record { tokens = sub burst (one fl); last_seen = now }) vs
        (laws.sub_below burst burst (laws.lt_irrefl burst)) c
  visit-IsCapped key rps burst now vs (some v) c =
      elim (Bool-cases (lt (refill fl rps burst now v) (one fl))) [
        | inl few ↦ rw few (
            store-IsCapped burst key
              (record { tokens = refill fl rps burst now v; last_seen = now }) vs
              (refill-le rps burst now v) c)
        | inr enough ↦ rw enough (
            store-IsCapped burst key
              (record { tokens = sub (refill fl rps burst now v) (one fl); last_seen = now }) vs
              (laws.sub_below (refill fl rps burst now v) burst (refill-le rps burst now v)) c)
      ]

  -- A request keeps every visitor's tokens within the burst, by every float arithmetic with the two
  -- laws.
  pub allow_memory-IsCapped :
      (key : String) (rps burst : F) (now : ℕ) (s : MemoryStore F)
      → IsCapped burst s.visitors
      → IsCapped burst (allow_memory fl key rps burst now s).0.visitors
  unfolding allow_memory
  allow_memory-IsCapped key rps burst now s c =
      elim (Bool-cases ((s.calls + 1) % two64 % sweep_every == 0)) [
        | inl due ↦ rw due (
            visit-IsCapped key rps burst now (sweep now s.visitors)
              (find key (sweep now s.visitors)) (sweep-IsCapped burst now s.visitors c))
        | inr idle ↦ rw idle (visit-IsCapped key rps burst now s.visitors (find key s.visitors) c)
      ]
