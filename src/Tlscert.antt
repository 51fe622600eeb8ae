-- ===== src/Tlscert.antt =====
-- cmd/dealer/internal/tlscert/reloader.go. os.Stat and tls.LoadX509KeyPair are given as what they find
-- on disk, which may change from one call to the next; `C` is a certificate.
pub mod Renewal
mod Examples
use dealer.Base.{
  ℕ, Bool, true, false, ◌&&◌, ◌==◌, Option, none, some, String, if◌then◌else◌, Result, ok, err,
  ◌>>=◌, ℤ, List, Event, select_loop, with_ticker,
}

pub record Reloader (C : Type 0) : Type 0 where
  pub cert : C
  pub last_cert_mod_time : ℕ
  pub last_key_mod_time : ℕ

-- The modification times of the two files, none where os.Stat fails, and the pair as it loads. For a
-- poll each of the three is what that call finds, when it comes.
pub record Files (C : Type 0) : Type 0 where
  pub cert_mod_time : Option ℕ
  pub key_mod_time : Option ℕ
  pub load_key_pair : Result String C

-- The files as they are at the first call that reads them, at the second one, and so on.
abbrev pub Disk : Type 0 → Type 0
Disk C = ℕ → Files C

abbrev pub time_or_zero : Option ℕ → ℕ
time_or_zero none = 0
time_or_zero (some t) = t

module _ {C : Type 0} where
  -- NewReloader: it loads the pair with its first call, and then reads the two times.
  unfoldable pub new_reloader : Disk C → Result String (Reloader C)
  new_reloader disk = do
    cert ← (disk 0).load_key_pair
    ok (record {
      cert = cert;
      last_cert_mod_time = time_or_zero (disk 1).cert_mod_time;
      last_key_mod_time = time_or_zero (disk 2).key_mod_time;
    })

  -- GetCertificate
  unfoldable pub get_certificate : Reloader C → C
  get_certificate r = r.cert

  -- Reload: the new state, and whether it succeeded.
  unfoldable pub reload : Files C → Reloader C → Reloader C × Bool
  reload files r = elim files.load_key_pair [
    | err e ↦ (r, false)
    | ok cert ↦ (record r { cert = cert }, true)
  ]

  -- pollOnce, with both times read.
  unfoldable pub poll_times : Files C → ℕ → ℕ → Reloader C → Reloader C
  unfolding reload
  poll_times files cert_time key_time r =
      if cert_time == r.last_cert_mod_time && key_time == r.last_key_mod_time
      then r
      else let outcome = reload files r in
        if outcome.1
        then record {
          cert = outcome.0.cert;
          last_cert_mod_time = cert_time;
          last_key_mod_time = key_time;
        }
        else outcome.0

  unfoldable pub poll_once : Files C → Reloader C → Reloader C
  unfolding poll_times
  poll_once files r = elim files.cert_mod_time [
    | none ↦ r
    | some cert_time ↦ elim files.key_mod_time [
      | none ↦ r
      | some key_time ↦ poll_times files cert_time key_time r
    ]
  ]

  -- Start, with what each poll finds; none where the ticker panics.
  unfoldable pub start : ℤ → List (Event (Files C)) → Reloader C → Option (Reloader C × Bool)
  unfolding poll_once select_loop
  start interval events r = with_ticker interval (select_loop poll_once events r)
