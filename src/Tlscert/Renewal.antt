-- ===== src/Tlscert/Renewal.antt =====
-- Which certificate is served: cmd/dealer/internal/tlscert/reloader.go.
use dealer.Base.{All, ap, refl, ℕ, ◌≡◌, ◌≢◌, ◌⊎◌, some, List, [], ◌∷◌, String, arith, ok, err}
use dealer.Tlscert.{Disk, Reloader, Files, new_reloader, get_certificate, poll_once}

module _ {C : Type 0} where
  -- A certificate that the reloader may serve: one that some look at the files loaded.
  abbrev pub Loaded : List (Files C) → C → Type 0
  Loaded [] c = ⊥
  Loaded (f ∷ fs) c = (f.load_key_pair ≡ ok c) ⊎ Loaded fs c

  -- A renewed pair that loads is served after the next poll, and the poll after that, on the same
  -- files, changes nothing.
  pub poll_once-renews :
      (files : Files C) (r : Reloader C) (a b : ℕ) (c : C)
      → files.cert_mod_time ≡ some a
      → files.key_mod_time ≡ some b
      → (a ≢ r.last_cert_mod_time) ⊎ (b ≢ r.last_key_mod_time)
      → files.load_key_pair ≡ ok c
      → (get_certificate (poll_once files r) ≡ c)
        × (poll_once files (poll_once files r) ≡ poll_once files r)
  unfolding poll_once get_certificate
  poll_once-renews files r a b c x y changed l = (ground arith, ground arith)

  -- A pair that does not load leaves the reloader as it was: the old certificate is served, and the
  -- next poll looks again.
  pub poll_once-keeps :
      (files : Files C) (r : Reloader C) (e : String)
      → files.load_key_pair ≡ err e
      → poll_once files r ≡ r
  unfolding poll_once
  poll_once-keeps files r e l = ground arith

  -- The polls of Start, the newest first.
  unfoldable pub poll_all : List (Files C) → Reloader C → Reloader C
  poll_all [] r = r
  poll_all (f ∷ fs) r = poll_once f (poll_all fs r)

  -- Files that have the times that the reloader knows.
  abbrev pub HasTimes : ℕ → ℕ → Files C → Type 0
  HasTimes a b files = (files.cert_mod_time ≡ some a) × (files.key_mod_time ≡ some b)

  poll_all-known :
      (polls : List (Files C)) (cert : C) (a b : ℕ)
      → All (HasTimes a b) polls
      → poll_all polls (record { cert = cert; last_cert_mod_time = a; last_key_mod_time = b })
        ≡ record { cert = cert; last_cert_mod_time = a; last_key_mod_time = b }
  unfolding poll_all poll_once
  poll_all-known [] cert a b h = refl
  poll_all-known (f ∷ fs) cert a b ((x, y), h) =
      rw (poll_all-known fs cert a b h, x, y) (ground arith)

  -- A renewal that comes after NewReloader loaded the pair and before it reads the times is missed:
  -- the reloader is made with the old certificate and the new times, and as long as the files keep
  -- these times, it serves the old certificate after any number of polls, whatever would load.
  pub new_reloader-missed :
      (disk : Disk C) (old : C) (a b : ℕ) (polls : List (Files C))
      → (disk 0).load_key_pair ≡ ok old
      → (disk 1).cert_mod_time ≡ some a
      → (disk 2).key_mod_time ≡ some b
      → All (HasTimes a b) polls
      → (r : Reloader C) × (new_reloader disk ≡ ok r) × (get_certificate (poll_all polls r) ≡ old)
  unfolding new_reloader get_certificate
  new_reloader-missed disk old a b polls loads x y same = (
    record { cert = old; last_cert_mod_time = a; last_key_mod_time = b },
    rw (loads, x, y) refl,
    ap (λ (r : Reloader C). r.cert) (poll_all-known polls old a b same),
  )
