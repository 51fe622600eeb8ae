-- ===== src/Plugin/SugarDb/Window.antt =====
-- How many requests a window of the distributed rate limiting lets through: sugarDBStore.allow of
-- gateway/internal/plugin/ratelimit_sugardb.go. What the code relies on of SugarDB is a section's
-- hypotheses: Incr adds one to the counter of its key and answers it, and no counter expires
-- between the calls.
use dealer.Base.{
  ℕ, zero, suc, ◌+◌, ◌-◌, ◌≡◌, ◌≤◌, refl, ◌∙◌, Bool, true, false, Option, some, String, ℤ, pos,
  pos_part, leb, ◌&&◌, leb_ℤ, ltb_ℤ, if◌then◌else◌, arith, Bool-cases, inl, inr,
}
use dealer.Plugin.RateLimit.{counted, limit_of, allow_sugar_db}
use dealer.Plugin.Values.{Float}

abbrev min : ℕ → ℕ → ℕ
min a b = if leb a b then a else b

abbrev as_nat : Bool → ℕ
as_nat b = if b then 1 else 0

module _ (fl : Float) {D : Type 0} (incr : String → D → D × Option ℤ)
    (expire : String → D → D × Bool) (key : String) (rps burst : fl.F) where
  abbrev allowed : ℕ → D → D × Bool
  allowed now d = allow_sugar_db fl incr expire key rps burst now d

  -- Requests one after the other, at one time: the database, and how many were let through.
  unfoldable pub requests : ℕ → ℕ → D → D × ℕ
  requests now zero d = (d, 0)
  requests now (suc n) d =
      let one = allowed now d in let rest = requests now n one.0 in (rest.0, as_nat one.1 + rest.1)

  -- The limit is at least one.
  limit_pos : (l : ℕ) × (limit_of fl incr expire burst ≡ pos (suc l))
  limit_pos = elim (Bool-cases (ltb_ℤ (fl.to_int burst) (pos 1))) [
    | inl small ↦ (0, rw small)
    | inr large ↦ (pos_part (fl.to_int burst) - 1, ground arith)
  ]

  module _ (value : D → ℕ)
      (incr_counts : (d : D)
        → (value (incr key d).0 ≡ value d + 1) × ((incr key d).1 ≡ some (pos (value d + 1))))
      (expire_works : (d : D)
        → (value (expire key d).0 ≡ value d) × ((expire key d).1 ≡ true)) where
    counted_step :
        (l : ℕ) (d : D) (c : ℕ)
        → value d ≡ c
        → (value (counted fl incr expire (pos (suc l)) key (d, some (pos c))).0 ≡ c)
          × ((counted fl incr expire (pos (suc l)) key (d, some (pos c))).1
              ≡ leb_ℤ (pos c) (pos (suc l)))
    counted_step l d c e = elim (Bool-cases (leb_ℤ (pos c) (pos 1) && leb_ℤ (pos 1) (pos c))) [
      | inl first ↦ rw (first, (expire_works d).1) ((expire_works d).0 ∙ e, refl)
      | inr again ↦ rw again (e, refl)
    ]

    allowed_step :
        (l now : ℕ) (d : D)
        → limit_of fl incr expire burst ≡ pos (suc l)
        → (value (allowed now d).0 ≡ value d + 1)
          × ((allowed now d).1 ≡ leb_ℤ (pos (value d + 1)) (pos (suc l)))
    unfolding allow_sugar_db
    allowed_step l now d bound =
        rw (bound, (incr_counts d).1)
          (counted_step l (incr key d).0 (value d + 1) (incr_counts d).0)

    requests-from :
        (l now n : ℕ) (d : D)
        → limit_of fl incr expire burst ≡ pos (suc l)
        → (requests now n d).1 ≡ min n (suc l - value d)
    unfolding requests
    requests-from l now zero d bound = ground arith
    requests-from l now (suc n) d bound =
        let (counts, lets) = allowed_step l now d bound in
        rw lets (ground (arith, requests-from l now n (allowed now d).0 bound))

    -- Of any number of requests of one key in a fresh window, as many are let through as the burst
    -- allows, rounded down and at least one, and all the others are refused.
    pub requests-window :
        (now n : ℕ) (d : D)
        → value d ≡ 0
        → (requests now n d).1 ≡ min n (pos_part (limit_of fl incr expire burst))
    requests-window now n d fresh =
        let (l, bound) = limit_pos in rw bound (ground (arith, requests-from l now n d bound))

  module _ (value : D → ℕ)
      (incr_counts : (d : D)
        → (value (incr key d).0 ≡ value d + 1) × ((incr key d).1 ≡ some (pos (value d + 1)))) where
    -- Expire is asked at the count of one only.
    allowed_later :
        (l now : ℕ) (d : D)
        → limit_of fl incr expire burst ≡ pos (suc l)
        → 1 ≤ value d
        → allowed now d ≡ ((incr key d).0, leb_ℤ (pos (value d + 1)) (pos (suc l)))
    unfolding allow_sugar_db
    allowed_later l now d bound later =
        let again : (leb_ℤ (pos (value d + 1)) (pos 1) && leb_ℤ (pos 1) (pos (value d + 1)))
            ≡ false =
          ground arith in
        rw (bound, (incr_counts d).1) (rw again)

    requests-later :
        (l now n : ℕ) (d : D)
        → limit_of fl incr expire burst ≡ pos (suc l)
        → 1 ≤ value d
        → (requests now n d).1 ≡ min n (suc l - value d)
    unfolding requests
    requests-later l now zero d bound later = ground arith
    requests-later l now (suc n) d bound later =
        let counts = (incr_counts d).0 in
        rw (allowed_later l now d bound later)
          (ground (arith, requests-later l now n (incr key d).0 bound))

    unexpired :
        (l now : ℕ) (d : D)
        → limit_of fl incr expire burst ≡ pos (suc l)
        → value d ≡ 0
        → (expire key (incr key d).0).1 ≡ false
        → allowed now d ≡ ((expire key (incr key d).0).0, false)
    unfolding allow_sugar_db
    unexpired l now d bound fresh fails = rw (bound, (incr_counts d).1) (rw fresh (rw fails))

    -- If the first request's Expire fails and leaves the counter, then the key is blocked for good:
    -- however many requests follow, one fewer than the limit is let through in all, since Expire is
    -- not called again.
    pub requests-unexpired :
        (now n : ℕ) (d : D)
        → value d ≡ 0
        → (expire key (incr key d).0).1 ≡ false
        → value (expire key (incr key d).0).0 ≡ 1
        → (requests now (suc n) d).1 ≡ min n (pos_part (limit_of fl incr expire burst) - 1)
    unfolding requests
    requests-unexpired now n d fresh fails left =
        let (l, bound) = limit_pos in
        rw (unexpired l now d bound fresh fails)
          (rw bound (ground (arith, requests-later l now n (expire key (incr key d).0).0 bound)))
