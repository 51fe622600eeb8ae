-- ===== src/Config/Watcher/Polling.antt =====
-- What the watcher of gateway/internal/config/watcher.go does about an edit.
use dealer.Base.{◌≡◌, refl, true, false, arith, some, List, [], ◌∷◌, ok, err, All}
use dealer.Config.Watcher.{FileInfo, Watcher, Disk, Reload, is_unchanged, poll_once}

module _ {C E S : Type 0} (on_reload : Reload C S) where
  -- A changed file that loads, with a configuration that onReload takes, is applied once: it is
  -- passed to onReload, and the next poll of the same file does nothing.
  pub poll_once-applies :
      (disk : Disk C E) (w : Watcher) (s : S) (info : FileInfo) (cfg : C)
      → disk.stat ≡ some info
      → is_unchanged w info ≡ false
      → disk.load ≡ ok cfg
      → (on_reload cfg s).1 ≡ true
      → ((poll_once on_reload disk w s).1 ≡ (on_reload cfg s).0)
        × (poll_once on_reload disk
              (poll_once on_reload disk w s).0
              (poll_once on_reload disk w s).1
            ≡ poll_once on_reload disk w s)
  unfolding poll_once
  poll_once-applies disk w s info cfg st ch ld r = (ground arith, ground arith)

  -- An edit that does not load changes neither the state nor the watcher, so that the next poll
  -- looks at the file again.
  pub poll_once-bad_edit :
      (disk : Disk C E) (w : Watcher) (s : S) (e : E)
      → disk.load ≡ err e
      → poll_once on_reload disk w s ≡ (w, s)
  unfolding poll_once
  poll_once-bad_edit disk w s e ld = ground arith

  unfoldable pub poll_all : List (Disk C E) → Watcher → S → Watcher × S
  poll_all [] w s = (w, s)
  poll_all (d ∷ ds) w s = poll_all ds (poll_once on_reload d w s).0 (poll_once on_reload d w s).1

  -- After any run of polls that found bad edits, a valid edit is still applied.
  pub poll_all-recovers :
      (bad : List (Disk C E)) (w : Watcher) (s : S)
      → All (λ d. (e : E) × (d.load ≡ err e)) bad
      → poll_all bad w s ≡ (w, s)
  unfolding poll_all
  poll_all-recovers [] w s h = refl
  poll_all-recovers (d ∷ ds) w s ((e, bad), h) =
      rw (poll_once-bad_edit d w s e bad) (poll_all-recovers ds w s h)
