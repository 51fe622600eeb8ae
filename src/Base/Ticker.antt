-- ===== src/Base/Ticker.antt =====
-- Go's time.Ticker in a goroutine with a context, as four loops of the program use it: the events
-- that the select receives, in their order. What a tick finds in its surroundings comes with it.
use mathlib.Core.Path.{◌≡◌, refl}
use mathlib.Core.Logic.{◌↔◌}
use mathlib.Core.Bool.{Bool, true, false}
use mathlib.Core.Option.{Option, none, some}
use mathlib.Core.List.{List, [], ◌∷◌, ◌++◌, map}
use native.Mathlib.Omega.{arith}
use dealer.Base.Int64.{ℤ, pos, leb_ℤ}
use dealer.Base.Lists.{any}
use dealer.Base.Tests.{if◌then◌else◌}

pub data Event (A : Type 0) : Type 0 where
  tick : A → Event A
  done : Event A

abbrev pub is_done : {A : Type 0} → Event A → Bool
is_done (tick a) = false
is_done done = true

module _ {A S : Type 0} (body : A → S → S) where
  -- The loop around the select: the state, and whether the loop has returned.
  unfoldable pub select_loop : List (Event A) → S → S × Bool
  select_loop [] s = (s, false)
  select_loop (tick a ∷ es) s = select_loop es (body a s)
  select_loop (done ∷ es) s = (s, true)

  -- The body run for each of the ticks.
  unfoldable pub ticked : List A → S → S
  ticked [] s = s
  ticked (a ∷ rest) s = ticked rest (body a s)

  pub select_loop-returned : (es : List (Event A)) (s : S) → (select_loop es s).1 ≡ any is_done es
  unfolding select_loop
  select_loop-returned [] s = refl
  select_loop-returned (tick a ∷ es) s = select_loop-returned es (body a s)
  select_loop-returned (done ∷ es) s = refl

  pub select_loop-done :
      (ticks : List A) (later : List (Event A)) (s : S)
      → select_loop (map tick ticks ++ done ∷ later) s ≡ (ticked ticks s, true)
  unfolding select_loop ticked
  select_loop-done [] later s = refl
  select_loop-done (a ∷ ticks) later s = select_loop-done ticks later (body a s)

-- time.NewTicker panics at an interval that is not positive: none.
abbrev pub with_ticker {ℓ} : {A : Type ℓ} → ℤ → A → Option A
with_ticker interval run = if leb_ℤ interval (pos 0) then none else some run

pub with_ticker-none_iff {ℓ} :
    {A : Type ℓ} (interval : ℤ) (run : A)
    → (with_ticker interval run ≡ none) ↔ (leb_ℤ interval (pos 0) ≡ true)
with_ticker-none_iff interval run = ground arith
