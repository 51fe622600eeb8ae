-- ===== src/Plugin/RateLimit/Examples.antt =====
-- The rate limiter's theorems at concrete visitors.
use Prim.Native.Nat.{◌*◌}
use dealer.Base.{
  ℕ, ◌+◌, ◌-◌, ◌≡◌, refl, true, arith, some, [], ◌∷◌, ltb, leb, pos, pos_part, sub_time,
}
use dealer.Plugin.Values.{Float}
use dealer.Plugin.RateLimit.{Visitor, Visitors, MemoryStore, find, allow_memory}
use dealer.Plugin.RateLimit.Bucket.{FloatLaws}

-- Whole tokens, with a subtraction that stops at 0, in place of the floats.
abbrev tokens : Float
tokens = record {
  F = ℕ;
  of_int = λ n. pos_part n;
  to_int = λ n. pos n;
  add = λ a b. a + b;
  sub = λ a b. a - b;
  mul = λ a b. a * b;
  lt = ltb;
  le = leb;
  seconds = λ d. pos_part d;
}

tokens-FloatLaws : FloatLaws tokens
tokens-FloatLaws = record { sub_below = λ x b h. ground arith; lt_irrefl = λ x. ground arith }

abbrev visitor : Visitor ℕ
visitor = record { tokens = 2; last_seen = 100 }

abbrev visitors : Visitors ℕ
visitors = ("10.0.0.1", visitor) ∷ ("10.0.0.2", visitor) ∷ []

abbrev store : MemoryStore ℕ
store = record { visitors = visitors; calls = 5 }

-- Three tokens at most, one more with each nanosecond.
takes_one : (allow_memory tokens "10.0.0.1" 1 3 101 store).1 ≡ true
unfolding allow_memory sub_time
takes_one = refl

visitor_found : find "10.0.0.1" visitors ≡ some visitor
unfolding find
visitor_found = refl
