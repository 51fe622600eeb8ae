-- ===== src/Config/Watcher/Ticking.antt =====
-- How long the watcher of gateway/internal/config/watcher.go runs, and what it does meanwhile.
use dealer.Base.{
  ◌≡◌, ap, true, false, some, List, ◌∷◌, ◌++◌, map, ℤ, pos, ltb_ℤ, leb_ℤ, arith, Event, tick, done,
  ticked, select_loop-done,
}
use dealer.Config.Watcher.{Watcher, Disk, Reload, poll_once, start}

module _ {C E S : Type 0} (on_reload : Reload C S) where
  -- With an interval that is positive, the watcher polls once for each tick before its context is
  -- cancelled, in their order, and then returns, whatever comes later.
  pub start-cancelled :
      (interval : ℤ) (polls : List (Disk C E)) (later : List (Event (Disk C E))) (w : Watcher)
      (s : S)
      → ltb_ℤ (pos 0) interval ≡ true
      → start on_reload interval (map tick polls ++ done ∷ later) (w, s)
        ≡ some (ticked (λ disk (v, t). poll_once on_reload disk v t) polls (w, s), true)
  unfolding start
  start-cancelled interval polls later w s positive =
      let runs : leb_ℤ interval (pos 0) ≡ false = ground arith in
      rw runs (
        ap some (select_loop-done (λ disk (v, t). poll_once on_reload disk v t) polls later (w, s)))
