-- ===== src/Plugin/RateLimit/Clients.antt =====
-- Each client of gateway/internal/plugin/rate_limiting.go has a token bucket of its own: the
-- specification that the memory store, with its sweep, implements.
pub mod Tracking
pub mod Starving
pub mod Forgetting
mod Examples
use dealer.Base.{
  ℕ, ◌+◌, ◌%◌, ◌≤◌, ◌<◌, ◌≡◌, refl, sym, ap, ◌∙◌, subst, inl, inr, ◌⊎◌, Bool, true, false, Option,
  none, some, List, [], ◌∷◌, String, str_eq, eq_iff, eq_refl, arith, if◌then◌else◌, ◌==◌, pos,
  leb_ℤ, ℤ, sub_ℕ, sub_time, InRange, two64, Bool-cases, Option-cases,
}
use dealer.Plugin.Values.{Float}
use dealer.Plugin.RateLimit.{
  Visitor, Visitors, MemoryStore, find, store, sweep, one, refill, visit, allow_memory, sweep_every,
  new_memory_store,
}
use dealer.Plugin.RateLimit.Bucket.{find-store}
use dealer.Plugin.RateLimit.Staleness.{
  stale_time, is_stale, sub_time-elapsed, Distinct, unless_stale, find-sweep, sweep-Distinct,
  store-Distinct,
}

-- The requests before, the latest first: each with its client and its time.
abbrev pub Requests : Type 0
Requests = List (String × ℕ)

-- The times of one client's requests.
unfoldable pub times_of : String → Requests → List ℕ
times_of key [] = []
times_of key ((k, t) ∷ earlier) =
    if str_eq k key then t ∷ times_of key earlier else times_of key earlier

-- The clock does not go back.
abbrev pub IsOrdered : ℕ → Requests → Type 0
IsOrdered now [] = Unit
IsOrdered now ((k, t) ∷ earlier) = (t ≤ now) × IsOrdered t earlier

module _ (fl : Float) where
  open fl use {F, of_int, add, sub, mul, lt, le, seconds}

  abbrev pub earned : F → ℕ → F
  earned rps d = mul (seconds (pos d)) rps

  -- What is used of float arithmetic, NaN included.
  pub record OrderLaws : Type 0 where
    pub add_nonneg :
        (n : ℤ) (x y : F)
        → le (of_int n) x ≡ true
        → le (of_int (pos 0)) y ≡ true
        → le (of_int n) (add x y) ≡ true
    pub add_above :
        (b x y : F) → le (of_int (pos 0)) x ≡ true → lt b y ≡ true → lt b (add x y) ≡ true
    pub sub_one :
        (n : ℕ) (x : F)
        → n ≤ 1
        → le (of_int (pos n)) x ≡ true
        → le (of_int (sub_ℕ n 1)) (sub x (of_int (pos 1))) ≡ true
    pub le_of_not_lt :
        (x : F)
        → le (of_int (pos 0)) x ≡ true
        → lt x (of_int (pos 1)) ≡ false
        → le (of_int (pos 1)) x ≡ true
    pub not_lt_of_le : (x : F) → le (of_int (pos 1)) x ≡ true → lt x (of_int (pos 1)) ≡ false
    pub le_weaken :
        (n m : ℤ) (x : F) → leb_ℤ n m ≡ true → le (of_int m) x ≡ true → le (of_int n) x ≡ true
    pub lt_of_not_lt :
        (n : ℤ) (x b : F)
        → le (of_int n) x ≡ true
        → lt b x ≡ false
        → lt b (of_int (pos 1)) ≡ true
        → lt x (of_int (pos 1)) ≡ true
    -- What is earned in a longer time is not less.
    pub earned_nonneg :
        (rps : F) (d : ℕ)
        → InRange d
        → le (of_int (pos 0)) rps ≡ true
        → le (of_int (pos 0)) (earned rps 0) ≡ true
        → le (of_int (pos 0)) (earned rps d) ≡ true
    pub earned_above :
        (rps b : F) (d d' : ℕ)
        → d ≤ d'
        → InRange d'
        → le (of_int (pos 0)) rps ≡ true
        → lt b (earned rps d) ≡ true
        → lt b (earned rps d') ≡ true

  -- The bucket of one client: what a request at a time does to it, and whether it is let through.
  pub taken : F → F → ℕ → Option (Visitor F) → Visitor F × Bool
  unfolding refill
  taken rps burst now none = (record { tokens = sub burst (one fl); last_seen = now }, true)
  taken rps burst now (some v) =
      let tokens = refill fl rps burst now v in
      if lt tokens (one fl)
      then (record { tokens = tokens; last_seen = now }, false)
      else (record { tokens = sub tokens (one fl); last_seen = now }, true)

  -- The bucket after requests at these times, the latest first.
  pub bucket : F → F → List ℕ → Option (Visitor F)
  unfolding taken
  bucket rps burst [] = none
  bucket rps burst (t ∷ earlier) = some (taken rps burst t (bucket rps burst earlier)).0

  -- The store after the requests.
  pub after : F → F → Requests → MemoryStore F
  unfolding allow_memory new_memory_store
  after rps burst [] = new_memory_store
  after rps burst ((key, t) ∷ earlier) =
      (allow_memory fl key rps burst t (after rps burst earlier)).0

  pub visit-taken :
      (key : String) (rps burst : F) (now : ℕ) (vs : Visitors F) (found : Option (Visitor F))
      → visit fl key rps burst now vs found
        ≡ (store key (taken rps burst now found).0 vs, (taken rps burst now found).1)
  unfolding visit taken
  visit-taken key rps burst now vs none = refl
  visit-taken key rps burst now vs (some v) = ground arith

  -- What is left when a request comes: the sweep may be due.
  abbrev pub swept : Bool → ℕ → Visitors F → Visitors F
  swept due now vs = if due then sweep now vs else vs

  abbrev pub is_due : MemoryStore F → Bool
  is_due s = (s.calls + 1) % two64 % sweep_every == 0

  pub allow_memory-taken :
      (key : String) (rps burst : F) (now : ℕ) (s : MemoryStore F)
      → let vs = swept (is_due s) now s.visitors in
        ((allow_memory fl key rps burst now s).0.visitors
          ≡ store key (taken rps burst now (find key vs)).0 vs)
        × ((allow_memory fl key rps burst now s).1 ≡ (taken rps burst now (find key vs)).1)
  unfolding allow_memory
  allow_memory-taken key rps burst now s =
      let vs = swept (is_due s) now s.visitors in
      let eq = visit-taken key rps burst now vs (find key vs) in
      (ap (λ p. p.0) eq, ap (λ p. p.1) eq)

  pub swept-Distinct :
      (due : Bool) (now : ℕ) (vs : Visitors F) → Distinct vs → Distinct (swept due now vs)
  swept-Distinct true now vs h = sweep-Distinct now vs h
  swept-Distinct false now vs h = h

  pub after-Distinct : (rps burst : F) (rs : Requests) → Distinct (after rps burst rs).visitors
  unfolding after new_memory_store
  after-Distinct rps burst [] = tt
  after-Distinct rps burst ((key, t) ∷ rs) =
      let s = after rps burst rs in
      let vs = swept (is_due s) t s.visitors in
      rw (allow_memory-taken key rps burst t s).0 (
        store-Distinct key (taken rps burst t (find key vs)).0 vs
          (swept-Distinct (is_due s) t s.visitors (after-Distinct rps burst rs)))
