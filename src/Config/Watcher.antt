-- ===== src/Config/Watcher.antt =====
-- gateway/internal/config/watcher.go. A watched file is seen through os.Stat and Load, which are
-- given for each poll; onReload is a parameter that acts on a state of its own.
pub mod Polling
pub mod Ticking
use dealer.Base.{
  ℕ, Bool, true, false, ◌&&◌, ◌==◌, Option, none, some, if◌then◌else◌, List, Event, select_loop,
  with_ticker, ℤ, Result, ok, err,
}

pub record FileInfo : Type 0 where
  pub mod_time : ℕ
  pub size : ℕ

pub record Watcher : Type 0 where
  pub last_mod_time : ℕ
  pub last_size : ℕ

-- NewWatcher: the zero values stay where the file cannot be read.
unfoldable pub new_watcher : Option FileInfo → Watcher
new_watcher none = record { last_mod_time = 0; last_size = 0 }
new_watcher (some info) = record { last_mod_time = info.mod_time; last_size = info.size }

-- What a poll finds on disk: os.Stat's answer and what Load would return.
pub record Disk (C E : Type 0) : Type 0 where
  pub stat : Option FileInfo
  pub load : Result E C

-- onReload with its state: the new state and its error.
abbrev pub Reload : Type 0 → Type 0 → Type 0
Reload C S = C → S → S × Bool

abbrev pub is_unchanged : Watcher → FileInfo → Bool
is_unchanged w info = info.mod_time == w.last_mod_time && info.size == w.last_size

module _ {C E S : Type 0} (on_reload : Reload C S) where
  unfoldable pub poll_once : Disk C E → Watcher → S → Watcher × S
  poll_once disk w s = elim disk.stat [
    | none ↦ (w, s)
    | some info ↦ if is_unchanged w info then (w, s) else elim disk.load [
      | err e ↦ (w, s)
      | ok cfg ↦
          if (on_reload cfg s).1
          then (
            record { last_mod_time = info.mod_time; last_size = info.size },
            (on_reload cfg s).0,
          )
          else (w, (on_reload cfg s).0)
    ]
  ]

  -- Start, with what each poll finds on disk; none where the ticker panics.
  unfoldable pub start : ℤ → List (Event (Disk C E)) → Watcher × S → Option ((Watcher × S) × Bool)
  unfolding poll_once select_loop
  start interval events state =
      with_ticker interval (select_loop (λ disk (w, s). poll_once disk w s) events state)
