-- ===== src/Plugin/RateLimit/Clients/Tracking.antt =====
-- That the memory store of gateway/internal/plugin/rate_limiting.go implements the buckets of its
-- clients: what the sweep forgets is not missed.
use dealer.Base.{
  ℕ, ◌≤◌, ◌<◌, ◌≡◌, refl, sym, ap, ◌∙◌, subst, inl, inr, ◌⊎◌, Bool, true, false, Option, none, some,
  [], ◌∷◌, String, str_eq, eq_iff, arith, if◌then◌else◌, pos, Bool-cases,
}
use dealer.Plugin.Values.{Float}
use dealer.Plugin.RateLimit.{Visitor, Visitors, find, store, refill, allow_memory, new_memory_store}
use dealer.Plugin.RateLimit.Bucket.{find-store}
use dealer.Plugin.RateLimit.Clients.{
  Requests, times_of, IsOrdered, earned, OrderLaws, taken, bucket, after, swept, is_due,
  allow_memory-taken, swept-Distinct, after-Distinct,
}
use dealer.Plugin.RateLimit.Staleness.{
  stale_time, is_stale, sub_time-elapsed, Distinct, unless_stale, find-sweep, store-Distinct,
}

module _ (fl : Float) where
  open fl use {F, of_int, add, sub, mul, lt, le, seconds}

  module _ (laws : OrderLaws fl) (rps burst : F) (positive : le (of_int (pos 0)) rps ≡ true)
      (finite : le (of_int (pos 0)) (earned fl rps 0) ≡ true)
      (at_least_one : le (of_int (pos 1)) burst ≡ true)
      (fills : lt burst (earned fl rps stale_time) ≡ true) where
    -- A bucket that was last used at or before the time, with tokens that are not negative.
    IsSound : ℕ → Visitor F → Type 0
    IsSound now v = (v.last_seen ≤ now) × (le (of_int (pos 0)) v.tokens ≡ true)

    refill-nonneg :
        (now : ℕ) (v : Visitor F)
        → IsSound now v
        → le (of_int (pos 0)) (refill fl rps burst now v) ≡ true
    unfolding refill IsSound
    refill-nonneg now v h =
        let (d, eq, r, s) = sub_time-elapsed now v.last_seen h.0 in
        rw eq (
          ground (
            arith,
            laws.add_nonneg (pos 0) v.tokens (earned fl rps d),
            laws.earned_nonneg rps d,
            laws.le_weaken (pos 0) (pos 1) burst refl,
          ))

    -- A bucket that nobody used for more than ten minutes is full.
    refill-stale :
        (now : ℕ) (v : Visitor F)
        → IsSound now v
        → is_stale now v.last_seen ≡ true
        → refill fl rps burst now v ≡ burst
    unfolding refill IsSound
    refill-stale now v h old =
        let (d, eq, r, s) = sub_time-elapsed now v.last_seen h.0 in
        let long : stale_time < d = s (ground arith) in
        rw eq (
          ground (
            arith,
            laws.add_above burst v.tokens (earned fl rps d),
            laws.earned_above rps burst stale_time d,
          ))

    taken-IsSound :
        (now : ℕ) (found : Option (Visitor F))
        → ((v : Visitor F) → found ≡ some v → IsSound now v)
        → IsSound now (taken fl rps burst now found).0
    unfolding taken IsSound
    taken-IsSound now none h = (omega arith, laws.sub_one 1 burst (omega arith) at_least_one)
    taken-IsSound now (some v) h =
        let filled = refill-nonneg now v (h v refl) in
        ground (
          arith,
          laws.le_of_not_lt (refill fl rps burst now v),
          laws.sub_one 1 (refill fl rps burst now v),
        )

    -- A request that comes more than ten minutes after the last one finds a bucket like a new one.
    taken-stale :
        (now : ℕ) (v : Visitor F)
        → IsSound now v
        → is_stale now v.last_seen ≡ true
        → taken fl rps burst now (some v) ≡ taken fl rps burst now none
    unfolding taken
    taken-stale now v h old =
        rw (refill-stale now v h old, laws.not_lt_of_le burst at_least_one) refl

    IsSound-later : (now later : ℕ) (v : Visitor F) → now ≤ later → IsSound now v → IsSound later v
    unfolding IsSound
    IsSound-later now later v h sound = (omega arith, sound.1)

    bucket-IsSound :
        (now : ℕ) (key : String) (rs : Requests) (v : Visitor F)
        → IsOrdered now rs
        → bucket fl rps burst (times_of key rs) ≡ some v
        → IsSound now v
    unfolding bucket times_of
    bucket-IsSound now key [] v h e = cc
    bucket-IsSound now key ((k, t) ∷ rs) v h e = elim (Bool-cases (str_eq k key)) [
      | inl same ↦
          let found : (taken fl rps burst t (bucket fl rps burst (times_of key rs))).0 ≡ v =
            ground (
              arith,
              subst
                  (λ b.
                    (bucket fl rps burst (if b then t ∷ times_of key rs else times_of key rs))
                    ≡ some v)
                  same e,
            ) in
          IsSound-later t now v h.0 (
            subst (IsSound t) found (
              taken-IsSound t (bucket fl rps burst (times_of key rs))
                λ u. bucket-IsSound t key rs u h.1))
      | inr other ↦ IsSound-later t now v h.0 (
          bucket-IsSound t key rs v h.1 (
            subst
              (λ b.
                (bucket fl rps burst (if b then t ∷ times_of key rs else times_of key rs)) ≡ some v)
              other e))
    ]

    -- What the store has of a bucket: the bucket, or nothing if it is stale.
    Remembered : ℕ → Option (Visitor F) → Option (Visitor F) → Type 0
    Remembered now stored actual =
        (stored ≡ actual)
        ⊎ ((v : Visitor F) × (stored ≡ none)
            × (actual ≡ some v)
            × (is_stale now v.last_seen ≡ true))

    taken-Remembered :
        (now : ℕ) (stored actual : Option (Visitor F))
        → ((v : Visitor F) → actual ≡ some v → IsSound now v)
        → Remembered now stored actual
        → taken fl rps burst now stored ≡ taken fl rps burst now actual
    unfolding Remembered
    taken-Remembered now stored actual h (inl same) = ap (taken fl rps burst now) same
    taken-Remembered now stored actual h (inr (v, gone, there, old)) =
        rw (gone, there) (sym (taken-stale now v (h v there) old))

    -- Time passes, and a sweep may be made.
    Remembered-later :
        (now later : ℕ) (stored actual : Option (Visitor F))
        → now ≤ later
        → Remembered now stored actual
        → Remembered later stored actual × Remembered later (unless_stale later stored) actual
    unfolding Remembered
    Remembered-later now later none actual h (inl same) = (inl same, inl same)
    Remembered-later now later (some v) actual h (inl same) = (
      inl same,
      elim (Bool-cases (is_stale later v.last_seen)) [
        | inl old ↦ inr (v, ground arith, sym same, old)
        | inr fresh ↦ inl (ground arith)
      ],
    )
    Remembered-later now later stored actual h (inr (v, gone, there, old)) =
        let older : is_stale later v.last_seen ≡ true = ground arith in
        (inr (v, gone, there, older), inr (v, rw gone refl, there, older))

    -- The visitors are what the store has of the buckets.
    Tracks : ℕ → Visitors F → Requests → Type 0
    Tracks now vs rs =
        (key : String) → Remembered now (find key vs) (bucket fl rps burst (times_of key rs))

    swept-Tracks :
        (due : Bool) (now later : ℕ) (vs : Visitors F) (rs : Requests)
        → now ≤ later
        → Distinct vs
        → Tracks now vs rs
        → Tracks later (swept fl due later vs) rs
    unfolding Tracks
    swept-Tracks true now later vs rs h d tr key =
        rw (find-sweep later key vs d)
          (Remembered-later now later (find key vs) (bucket fl rps burst (times_of key rs)) h
            (tr key)).1
    swept-Tracks false now later vs rs h d tr key =
        (Remembered-later now later (find key vs) (bucket fl rps burst (times_of key rs)) h
          (tr key)).0

    taken-Tracks :
        (key : String) (now : ℕ) (vs : Visitors F) (rs : Requests)
        → IsOrdered now rs
        → Tracks now vs rs
        → Tracks now (store key (taken fl rps burst now (find key vs)).0 vs) ((key, now) ∷ rs)
    unfolding bucket times_of Remembered Tracks
    taken-Tracks key now vs rs o tr other = elim (Bool-cases (str_eq key other)) [
      | inl same ↦
          rw (find-store key other (taken fl rps burst now (find key vs)).0 vs, same)
            (inl (
              ap (λ p. some p.0)
                (taken-Remembered now (find key vs) (bucket fl rps burst (times_of other rs))
                  (λ v. bucket-IsSound now other rs v o)
                  (subst (λ k. Remembered now (find k vs) (bucket fl rps burst (times_of other rs)))
                    (sym ((eq_iff key other).0 same)) (tr other)))))
      | inr differ ↦
          rw (find-store key other (taken fl rps burst now (find key vs)).0 vs, differ) (tr other)
    ]

    after-Tracks :
        (now : ℕ) (rs : Requests)
        → IsOrdered now rs
        → Tracks now (after fl rps burst rs).visitors rs
    unfolding after
    after-Tracks now [] o =
        unfold Tracks new_memory_store find bucket times_of Remembered in λ key. inl refl
    after-Tracks now ((key, t) ∷ rs) o =
        let s = after fl rps burst rs in
        let vs = swept fl (is_due fl s) t s.visitors in
        rw (allow_memory-taken fl key rps burst t s).0 (
          swept-Tracks false t now (store key (taken fl rps burst t (find key vs)).0 vs)
            ((key, t) ∷ rs) o.0
            (store-Distinct key (taken fl rps burst t (find key vs)).0 vs
              (swept-Distinct fl (is_due fl s) t s.visitors (after-Distinct fl rps burst rs)))
            (taken-Tracks key t vs rs o.1 (
              swept-Tracks (is_due fl s) t t s.visitors rs (omega arith)
                (after-Distinct fl rps burst rs) (after-Tracks t rs o.1))))

    -- Each client has a bucket of its own, that nobody forgets: whatever the other clients did, and
    -- whenever the sweep was made, a request is let through exactly if the bucket that has seen
    -- this client's requests only lets it through. For a rate that is a finite number, a burst of
    -- at least one that is earned within ten minutes, a clock that does not go back, and every float
    -- arithmetic with the laws.
    pub allow_memory-bucket :
        (rs : Requests) (key : String) (now : ℕ)
        → IsOrdered now rs
        → (allow_memory fl key rps burst now (after fl rps burst rs)).1
          ≡ (taken fl rps burst now (bucket fl rps burst (times_of key rs))).1
    unfolding Tracks
    allow_memory-bucket rs key now o =
        let s = after fl rps burst rs in
        let vs = swept fl (is_due fl s) now s.visitors in
        let ready =
          swept-Tracks (is_due fl s) now now s.visitors rs (omega arith)
            (after-Distinct fl rps burst rs) (after-Tracks now rs o) in
        (allow_memory-taken fl key rps burst now s).1
        ∙ ap (λ p. p.1)
            (taken-Remembered now (find key vs) (bucket fl rps burst (times_of key rs))
              (λ v. bucket-IsSound now key rs v o) (ready key))
