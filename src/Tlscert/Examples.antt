-- ===== src/Tlscert/Examples.antt =====
-- The certificate reloader's theorems at concrete files.
use dealer.Base.{ℕ, ◌==◌, ◌≡◌, refl, some, ok, [], ◌∷◌, if◌then◌else◌}
use dealer.Tlscert.{Disk, Reloader, Files, new_reloader, get_certificate}
use dealer.Tlscert.Renewal.{poll_all, new_reloader-missed}

-- A certificate is a number.
abbrev first_files : Files ℕ
first_files = record { cert_mod_time = some 10; key_mod_time = some 10; load_key_pair = ok 1 }

abbrev renewed : Files ℕ
renewed = record { cert_mod_time = some 20; key_mod_time = some 21; load_key_pair = ok 2 }

-- The pair is renewed, certificate and key, after it was loaded.
abbrev renewed_between : Disk ℕ
renewed_between n = if n == 0 then first_files else renewed

new_reloader-missed_example :
    (r : Reloader ℕ) × (new_reloader renewed_between ≡ ok r)
    × (get_certificate (poll_all (renewed ∷ renewed ∷ []) r) ≡ 1)
new_reloader-missed_example =
    new_reloader-missed renewed_between 1 20 21 (renewed ∷ renewed ∷ []) refl refl refl
      ((refl, refl), ((refl, refl), tt))

abbrev late_reloader : Reloader ℕ
late_reloader = record { cert = 1; last_cert_mod_time = 20; last_key_mod_time = 21 }

abbrev renewed_again : Files ℕ
renewed_again = record { cert_mod_time = some 30; key_mod_time = some 31; load_key_pair = ok 3 }
