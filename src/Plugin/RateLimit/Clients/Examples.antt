-- ===== src/Plugin/RateLimit/Clients/Examples.antt =====
-- The buckets of clients at concrete rates.
use Prim.Native.Nat.{◌*◌}
use dealer.Base.{
  ℕ, ◌+◌, ◌-◌, ◌/◌, ◌≡◌, refl, true, false, arith, some, [], ◌∷◌, ltb, leb, pos, pos_part, negsuc,
  ℤ, leb_ℤ, ◌≤◌, sub_time, ok,
}
use dealer.Config.Types.{Entries, Value, get}
use dealer.Plugin.Values.{Float}
use dealer.Plugin.RateLimit as RateLimit
use dealer.Plugin.RateLimit.{Visitor, RateLimiting, find, refill, allow_memory, new_rate_limiting}
use dealer.Plugin.RateLimit.Clients.{Requests, OrderLaws, times_of, taken, bucket, after, is_due}
use dealer.Plugin.RateLimit.Clients.Forgetting.{allow_memory-forgets}
use dealer.Plugin.RateLimit.Clients.Tracking.{allow_memory-bucket}
use dealer.Plugin.RateLimit.Clients.Starving.{default_burst-refuses}

-- Thousandths, earned by the whole second, with a subtraction that stops at 0.
abbrev thousandths : Float
thousandths = record {
  F = ℕ;
  of_int = λ n. pos_part n * 1000;
  to_int = λ n. pos (n / 1000);
  add = λ a b. a + b;
  sub = λ a b. a - b;
  mul = λ a b. a * b;
  lt = ltb;
  le = leb;
  seconds = λ d. pos_part d / 1_000_000_000;
}

less_of_neg : (n m : ℤ) → leb_ℤ n m ≡ true → pos_part n ≤ pos_part m
less_of_neg (pos n) (pos m) h = ground arith
less_of_neg (pos n) (negsuc m) h = absurd (ground arith)
less_of_neg (negsuc n) m h = omega arith

earned_mono : (rps d d' : ℕ) → d ≤ d' → d / 1_000_000_000 * rps ≤ d' / 1_000_000_000 * rps
earned_mono rps d d' h =
    let whole : d / 1_000_000_000 ≤ d' / 1_000_000_000 = omega arith in grind arith

thousandths-OrderLaws : OrderLaws thousandths
thousandths-OrderLaws = record {
  add_nonneg = λ n x y h k. ground arith;
  add_above = λ b x y h k. ground arith;
  sub_one = λ n x h k. ground arith;
  le_of_not_lt = λ x h k. ground arith;
  not_lt_of_le = λ x h. ground arith;
  le_weaken = λ n m x h k. ground (arith, less_of_neg n m h);
  lt_of_not_lt = λ n x b h k l. ground arith;
  earned_nonneg = λ rps d r h k. ground arith;
  earned_above = λ rps b d d' h r k l. ground (arith, earned_mono rps d d' h);
}

abbrev second : ℕ
second = 1_000_000_000

-- Two clients, the latest request first.
abbrev requests : Requests
requests = ("b", 700 * second) ∷ ("a", 2 * second) ∷ ("a", second) ∷ []

-- One request in a second, at most two at once: "a" is refused only if it comes twice in a second.
allow_memory-bucket_example :
    (allow_memory thousandths "a" 1000 2000 (701 * second) (after thousandths 1000 2000 requests)).1
    ≡ (taken thousandths 1000 2000
        (701 * second)
        (bucket thousandths 1000 2000 (times_of "a" requests))).1
allow_memory-bucket_example =
    allow_memory-bucket thousandths thousandths-OrderLaws 1000 2000 refl refl refl refl requests "a"
      (701 * second) (omega arith)

abbrev half : Entries ℕ
half = Entries.entry "requests_per_second" (Value.float 500) Entries.empty

default_burst-refuses_example :
    (p : RateLimiting thousandths) × (new_rate_limiting thousandths true half "shop:0" ≡ ok p)
    × (p.kind ≡ RateLimit.memory)
    × ((allow_memory thousandths "b" p.requests_per_second p.burst
          (1300 * second)
          (after thousandths p.requests_per_second p.burst requests)).1
        ≡ false)
unfolding get times_of
default_burst-refuses_example =
    default_burst-refuses thousandths thousandths-OrderLaws true half "shop:0" 500 requests "b"
      (1300 * second) refl refl refl refl refl refl refl (omega arith) (omega arith)

idle : Visitor ℕ
idle = record { tokens = 1; last_seen = 2 * second }

idle_found : find "a" (after thousandths 1 2000 requests).visitors ≡ some idle
unfolding after allow_memory find sub_time idle
idle_found = refl

allow_memory-forgets_example :
    (allow_memory thousandths "a" 1 2000 (701 * second) (after thousandths 1 2000 requests)).1
    ≡ is_due thousandths (after thousandths 1 2000 requests)
unfolding idle refill sub_time
allow_memory-forgets_example =
    allow_memory-forgets thousandths 1 2000 requests "a" (701 * second) idle idle_found refl refl
