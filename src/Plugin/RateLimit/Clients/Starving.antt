-- ===== src/Plugin/RateLimit/Clients/Starving.antt =====
-- A burst below one token, as gateway/internal/plugin/rate_limiting.go takes it from a rate below
-- one with no burst beside it.
use dealer.Base.{
  ℕ, ◌+◌, ◌≤◌, ◌≡◌, refl, ap, ◌∙◌, subst, inl, inr, Bool, true, false, Option, none, some, List, [],
  ◌∷◌, String, str_eq, arith, if◌then◌else◌, pos, negsuc, Bool-cases, ok,
}
use dealer.Config.Types.{Entries, Value, get}
use dealer.Plugin.RateLimit as RateLimit
use dealer.Plugin.Values.{Float}
use dealer.Plugin.RateLimit.{
  Visitor, Visitors, RateLimiting, find, store, one, refill, allow_memory, new_memory_store,
  new_rate_limiting,
}
use dealer.Plugin.RateLimit.Bucket.{find-store}
use dealer.Plugin.RateLimit.Clients.{
  Requests, times_of, IsOrdered, earned, OrderLaws, taken, after, swept, is_due, allow_memory-taken,
  after-Distinct,
}
use dealer.Plugin.RateLimit.Staleness.{
  stale_time, is_stale, sub_time-elapsed, Distinct, unless_stale, find-sweep,
}

-- The client's last request was at most ten minutes ago.
abbrev pub IsSteady : ℕ → List ℕ → Type 0
IsSteady now [] = ⊥
IsSteady now (t ∷ earlier) = now ≤ t + stale_time

abbrev IsLast : List ℕ → ℕ → Type 0
IsLast [] seen = ⊥
IsLast (t ∷ earlier) seen = seen ≡ t

module _ (fl : Float) where
  open fl use {F, of_int, add, sub, mul, lt, le, seconds}

  module _ (laws : OrderLaws fl) (rps burst : F) (positive : le (of_int (pos 0)) rps ≡ true)
      (finite : le (of_int (pos 0)) (earned fl rps 0) ≡ true)
      (burst_nonneg : le (of_int (pos 0)) burst ≡ true) (below_one : lt burst (one fl) ≡ true) where
    -- A bucket with tokens that are a number, not below -1.
    IsLow : ℕ → Visitor F → Type 0
    IsLow now v = (v.last_seen ≤ now) × (le (of_int (negsuc 0)) v.tokens ≡ true)

    refill-low :
        (now : ℕ) (v : Visitor F)
        → IsLow now v
        → (le (of_int (negsuc 0)) (refill fl rps burst now v) ≡ true)
          × (lt (refill fl rps burst now v) (one fl) ≡ true)
    unfolding refill IsLow
    refill-low now v h =
        let (d, eq, r, s) = sub_time-elapsed now v.last_seen h.0 in
        let low = laws.le_weaken (negsuc 0) (pos 0) burst refl burst_nonneg in
        let more =
          laws.add_nonneg (negsuc 0) v.tokens (earned fl rps d) h.1
            (laws.earned_nonneg rps d r positive finite) in
        rw eq (
          ground (
            arith,
            laws.lt_of_not_lt (negsuc 0) burst burst,
            laws.lt_of_not_lt (negsuc 0) (add v.tokens (earned fl rps d)) burst,
          ))

    taken-refused :
        (now : ℕ) (v : Visitor F)
        → IsLow now v
        → taken fl rps burst now (some v)
          ≡ (record { tokens = refill fl rps burst now v; last_seen = now }, false)
    unfolding taken
    taken-refused now v h = rw (refill-low now v h).1 refl

    taken-IsLow :
        (now : ℕ) (found : Option (Visitor F))
        → ((v : Visitor F) → found ≡ some v → IsLow now v)
        → IsLow now (taken fl rps burst now found).0
          × ((taken fl rps burst now found).0.last_seen ≡ now)
    unfolding IsLow
    taken-IsLow now none h =
        unfold taken in ((omega arith, laws.sub_one 0 burst (omega arith) burst_nonneg), refl)
    taken-IsLow now (some v) h =
        rw (taken-refused now v (h v refl)) ((omega arith, (refill-low now v (h v refl)).0), refl)

    -- What the store has of a client: low buckets only, and the client's if it is steady.
    record Keeps (now : ℕ) (found : Option (Visitor F)) (times : List ℕ) : Type 0 where
      low : (v : Visitor F) → found ≡ some v → IsLow now v
      kept : IsSteady now times → (v : Visitor F) × (found ≡ some v) × IsLast times v.last_seen

    IsLow-later : (now later : ℕ) (v : Visitor F) → now ≤ later → IsLow now v → IsLow later v
    unfolding IsLow
    IsLow-later now later v h low = (omega arith, low.1)

    IsSteady-earlier :
        (now later : ℕ) (ts : List ℕ) → now ≤ later → IsSteady later ts → IsSteady now ts
    IsSteady-earlier now later [] h s = s
    IsSteady-earlier now later (t ∷ ts) h s = omega arith

    not_stale :
        (later : ℕ) (ts : List ℕ) (seen : ℕ)
        → IsSteady later ts
        → IsLast ts seen
        → is_stale later seen ≡ false
    not_stale later [] seen s l = absurd s
    not_stale later (t ∷ ts) seen s l = ground arith

    unless_stale-some :
        (later : ℕ) (found : Option (Visitor F)) (v : Visitor F)
        → unless_stale later found ≡ some v
        → found ≡ some v
    unless_stale-some later none v e = e
    unless_stale-some later (some w) v e = ground arith

    Keeps-later :
        (due : Bool) (now later : ℕ) (found : Option (Visitor F)) (ts : List ℕ)
        → now ≤ later
        → Keeps now found ts
        → Keeps later (if due then unless_stale later found else found) ts
    Keeps-later false now later found ts h k = record {
      low = λ v e. IsLow-later now later v h (k.low v e);
      kept = λ s. k.kept (IsSteady-earlier now later ts h s);
    }
    Keeps-later true now later found ts h k = record {
      low = λ v e. IsLow-later now later v h (k.low v (unless_stale-some later found v e));
      kept = λ s.
          let (v, there, last) = k.kept (IsSteady-earlier now later ts h s) in
          (v, rw (there, not_stale later ts v.last_seen s last) refl, last);
    }

    find-swept :
        (due : Bool) (now : ℕ) (key : String) (vs : Visitors F)
        → Distinct vs
        → find key (swept fl due now vs)
          ≡ (if due then unless_stale now (find key vs) else find key vs)
    find-swept true now key vs h = find-sweep now key vs h
    find-swept false now key vs h = refl

    ready-Keeps :
        (now later : ℕ) (rs : Requests) (key : String)
        → now ≤ later
        → Keeps now (find key (after fl rps burst rs).visitors) (times_of key rs)
        → Keeps later
            (find key
              (swept fl (is_due fl (after fl rps burst rs)) later (after fl rps burst rs).visitors))
            (times_of key rs)
    ready-Keeps now later rs key h k =
        let s = after fl rps burst rs in
        rw (find-swept (is_due fl s) later key s.visitors (after-Distinct fl rps burst rs))
          (Keeps-later (is_due fl s) now later (find key s.visitors) (times_of key rs) h k)

    after-Keeps :
        (now : ℕ) (rs : Requests) (key : String)
        → IsOrdered now rs
        → Keeps now (find key (after fl rps burst rs).visitors) (times_of key rs)
    unfolding times_of after
    after-Keeps now [] key o =
        unfold new_memory_store find in record { low = λ v e. cc; kept = λ s. absurd s }
    after-Keeps now ((k, t) ∷ rs) key o =
        let s = after fl rps burst rs in
        let vs = swept fl (is_due fl s) t s.visitors in
        let before = ready-Keeps t t rs key (omega arith) (after-Keeps t rs key o.1) in
        let (low, seen) =
          taken-IsLow t (find k vs)
            (ready-Keeps t t rs k (omega arith) (after-Keeps t rs k o.1)).low in
        rw
          (
            (allow_memory-taken fl k rps burst t s).0,
            find-store k key (taken fl rps burst t (find k vs)).0 vs,
          )
          (elim (Bool-cases (str_eq k key)) [
            | inl same ↦ rw same (
                Keeps-later false t now (some (taken fl rps burst t (find k vs)).0)
                  (t ∷ times_of key rs) o.0
                  (record {
                    low = λ v e. subst (IsLow t) (cc e) low;
                    kept = λ _. ((taken fl rps burst t (find k vs)).0, refl, seen);
                  }))
            | inr other ↦
                rw other (Keeps-later false t now (find key vs) (times_of key rs) o.0 before)
          ])

    starved :
        (rs : Requests) (key : String) (now : ℕ)
        → IsOrdered now rs
        → IsSteady now (times_of key rs)
        → (allow_memory fl key rps burst now (after fl rps burst rs)).1 ≡ false
    starved rs key now o s =
        let st = after fl rps burst rs in
        let vs = swept fl (is_due fl st) now st.visitors in
        let ready = ready-Keeps now now rs key (omega arith) (after-Keeps now rs key o) in
        let (v, there, last) = ready.kept s in
        (allow_memory-taken fl key rps burst now st).1
        ∙ ap (λ o. (taken fl rps burst now o).1) there
        ∙ ap (λ p. p.1) (taken-refused now v (ready.low v there))

  -- With a finite rate below one request per second, no burst and no mode in its configuration, a
  -- plugin is built that keeps its buckets in memory, and it refuses every request of a client whose
  -- last request was at most ten minutes ago, even if it waited for as long before each one: the
  -- burst is the rate, so a bucket never holds a whole token. For a clock that does not go back, and
  -- every float arithmetic with the laws.
  pub default_burst-refuses :
      (laws : OrderLaws fl) (shared : Bool) (cfg : Entries F) (instance_id : String) (rps : F)
      (rs : Requests) (key : String) (now : ℕ)
      → get cfg "requests_per_second" ≡ some (Value.float rps)
      → get cfg "burst" ≡ none
      → get cfg "mode" ≡ none
      → le rps (of_int (pos 0)) ≡ false
      → le (of_int (pos 0)) rps ≡ true
      → le (of_int (pos 0)) (earned fl rps 0) ≡ true
      → lt rps (one fl) ≡ true
      → IsOrdered now rs
      → IsSteady now (times_of key rs)
      → (p : RateLimiting fl) × (new_rate_limiting fl shared cfg instance_id ≡ ok p)
        × (p.kind ≡ RateLimit.memory)
        × ((allow_memory fl key p.requests_per_second p.burst now
              (after fl p.requests_per_second p.burst rs)).1
            ≡ false)
  unfolding new_rate_limiting
  default_burst-refuses laws shared cfg instance_id rps rs key now given no_burst no_mode rejected
        positive finite below o s =
      (
        record { requests_per_second = rps; burst = rps; kind = RateLimit.memory },
        rw (given, no_burst, no_mode, rejected) refl,
        refl,
        starved laws rps rps positive finite positive below rs key now o s,
      )
