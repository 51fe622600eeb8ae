-- ===== src/Plugin/RateLimit/Staleness.antt =====
-- What the sweep of gateway/internal/plugin/rate_limiting.go forgets.
use dealer.Base.{
  ℕ, ◌+◌, ◌-◌, ◌≤◌, ◌<◌, ◌≡◌, refl, ap, subst, Bool, Option, none, some, [], ◌∷◌, String, eq_iff,
  arith, if◌then◌else◌, ltb, ltb_ℤ, pos, sub_time, InRange,
}
use dealer.Plugin.RateLimit.Bucket.{find-store}
use dealer.Plugin.RateLimit.{Visitor, Visitors, find, store, sweep, stale_after}

-- Ten minutes.
abbrev pub stale_time : ℕ
stale_time = 600_000_000_000

abbrev pub is_stale : ℕ → ℕ → Bool
is_stale now last_seen = ltb (last_seen + stale_time) now

pub stale_after_lem :
    (now last_seen : ℕ) → ltb_ℤ stale_after (sub_time now last_seen) ≡ is_stale now last_seen
unfolding sub_time
stale_after_lem now last_seen = ground arith

-- The time since a visitor was seen, as a Duration: held to its range.
pub sub_time-elapsed :
    (now last_seen : ℕ)
    → last_seen ≤ now
    → (d : ℕ) × (sub_time now last_seen ≡ pos d)
      × InRange d
      × (last_seen + stale_time < now → stale_time < d)
unfolding sub_time
sub_time-elapsed now last_seen h = (
  if ltb (now - last_seen) 9223372036854775808 then now - last_seen else 9223372036854775807,
  ground arith,
  ground arith,
  λ s. ground arith,
)

module _ {F : Type 0} where
  -- No key stands twice.
  abbrev pub Distinct : Visitors F → Type 0
  Distinct [] = Unit
  Distinct ((k, v) ∷ vs) = (find k vs ≡ none) × Distinct vs

  abbrev pub unless_stale : ℕ → Option (Visitor F) → Option (Visitor F)
  unless_stale now none = none
  unless_stale now (some v) = if is_stale now v.last_seen then none else some v

  sweep-cons :
      (now : ℕ) (k : String) (v : Visitor F) (vs : Visitors F)
      → sweep now ((k, v) ∷ vs)
        ≡ (if is_stale now v.last_seen then sweep now vs else (k, v) ∷ sweep now vs)
  unfolding sweep
  sweep-cons now k v vs =
      ap (λ b. if b then sweep now vs else (k, v) ∷ sweep now vs) (stale_after_lem now v.last_seen)

  pub find-sweep :
      (now : ℕ) (key : String) (vs : Visitors F)
      → Distinct vs
      → find key (sweep now vs) ≡ unless_stale now (find key vs)
  unfolding find
  find-sweep now key [] h = unfold sweep in refl
  find-sweep now key ((k, v) ∷ vs) h = rw (sweep-cons now k v vs) (
      ground (
        arith,
        eq_iff k key,
        subst (λ x. find x vs ≡ none) {x = k} {y = key},
        find-sweep now key vs h.1,
      ))

  pub sweep-Distinct : (now : ℕ) (vs : Visitors F) → Distinct vs → Distinct (sweep now vs)
  sweep-Distinct now [] h = unfold sweep in tt
  sweep-Distinct now ((k, v) ∷ vs) h =
      rw (sweep-cons now k v vs)
        (ground (arith, find-sweep now k vs h.1, sweep-Distinct now vs h.1))

  pub store-Distinct :
      (key : String) (v : Visitor F) (vs : Visitors F) → Distinct vs → Distinct (store key v vs)
  unfolding store find
  store-Distinct key v [] h = (refl, tt)
  store-Distinct key v ((k, w) ∷ vs) h =
      ground (arith, eq_iff k key, eq_iff key k, find-store key k v vs, store-Distinct key v vs h.1)
