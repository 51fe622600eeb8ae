-- ===== src/Command/Servers/Security.antt =====
-- When the main server of cmd/dealer/main.go serves TLS, and with which certificates.
use dealer.Base.{
  ◌≡◌, ◌≢◌, inl, inr, ◌↔◌, refl, ap, sym, subst, Bool, true, false, Option, none, some, String,
  is_empty, eq_iff, arith, ℤ, Result, ok, err, >>=-eq-ok, Bool-cases, Option-cases, ◌∙◌,
}
use dealer.Acmecert as Acmecert
use dealer.Acmecert.Policy.{new-policy}
use dealer.Command.Environment.{Environment, getenv}
use dealer.Command.Settings.{Settings, build_tls_config, read_settings, loaded}
use dealer.Command.Settings.Reading.{ok_value, read_settings-ok_iff}
use dealer.Command.Servers.{
  from_files, from_acme, Running, certificates, start_acme, acme_manager, start, created, mounted,
  new_root_mux, info_path_of, running, Served,
}
use dealer.Gateway.Options.{Options}
use dealer.Tlscert as Tlscert
use dealer.Tlscert.{Reloader, Files, new_reloader}

-- The outcome of buildTLSConfig: no file is named, or both are, and the pair is loaded.
pub data FilesAre {C : Type 0} (files : String → String → Tlscert.Disk C)
    (cert_file key_file : String) (tls : Option (Reloader C)) : Type 0 where
  unset : cert_file ≡ "" → key_file ≡ "" → tls ≡ none → FilesAre files cert_file key_file tls
  both :
      (reloader : Reloader C)
      → cert_file ≢ ""
      → key_file ≢ ""
      → new_reloader (files cert_file key_file) ≡ ok reloader
      → tls ≡ some reloader
      → FilesAre files cert_file key_file tls

ok-loaded :
    {C : Type 0} (r : Result String (Reloader C)) (tls : Option (Reloader C))
    → loaded r ≡ ok tls
    → (reloader : Reloader C) × (r ≡ ok reloader) × (tls ≡ some reloader)
ok-loaded (err why) tls h = cc
ok-loaded (ok reloader) tls h = (reloader, refl, cc)

module _ {C : Type 0} (files : String → String → Tlscert.Disk C) where
  build_tls_config-FilesAre :
      (cert_file key_file : String) (tls : Option (Reloader C))
      → build_tls_config files cert_file key_file ≡ ok tls
      → FilesAre files cert_file key_file tls
  unfolding build_tls_config
  build_tls_config-FilesAre cert_file key_file tls h = elim (Bool-cases (is_empty cert_file)) [
    | inl no_cert ↦ elim (Bool-cases (is_empty key_file)) [
      | inl no_key ↦
          unset (ground (arith, eq_iff cert_file "")) (ground (arith, eq_iff key_file ""))
            (ground arith)
      | inr key ↦ absurd (ground arith)
    ]
    | inr cert ↦ elim (Bool-cases (is_empty key_file)) [
      | inl no_key ↦ absurd (ground arith)
      | inr key ↦
          let (reloader, made, same) =
            ok-loaded (new_reloader (files cert_file key_file)) tls (rw (cert, key) at h) in
          both reloader (ground (arith, eq_iff cert_file "")) (ground (arith, eq_iff key_file ""))
            made same
    ]
  ]

-- A manager that requests certificates for the hosts of the gateway, and no others.
abbrev pub Serves : {G : Type 0} → (G → String → Bool) → G → Acmecert.Manager → Type 0
Serves has_host gw manager =
    (host : String) → (manager.host_policy host ≡ ok tt) ↔ (has_host gw host ≡ true)

ok-acme_manager :
    (r : Result Acmecert.AcmeError Acmecert.Manager) (m : Option Acmecert.Manager)
    → acme_manager r ≡ ok m
    → (manager : Acmecert.Manager) × (r ≡ ok manager) × (m ≡ some manager)
ok-acme_manager (err why) m h = cc
ok-acme_manager (ok manager) m h = (manager, refl, cc)

module _ {C G : Type 0} (has_host : G → String → Bool) (env : Environment) (s : Settings C) (gw : G)
    (m : Option Acmecert.Manager) (started : start_acme has_host env s gw ≡ ok m) where
  start_acme-unset : s.acme_email ≡ "" → m ≡ none
  unfolding start_acme
  start_acme-unset e = ground (arith, eq_iff s.acme_email "")

  start_acme-no_files : s.acme_email ≢ "" → s.tls ≡ none
  unfolding start_acme
  start_acme-no_files given = elim (Option-cases s.tls) [
    | inl no_files ↦ no_files
    | inr (reloader, e) ↦ absurd (ground (arith, eq_iff s.acme_email ""))
  ]

  start_acme-Serves :
      s.acme_email ≢ ""
      → (manager : Acmecert.Manager) × (m ≡ some manager) × Serves has_host gw manager
  unfolding start_acme
  start_acme-Serves given =
      let filled : is_empty s.acme_email ≡ false = ground (arith, eq_iff s.acme_email "") in
      let (manager, made, same) =
        ok-acme_manager _ m (rw (filled, start_acme-no_files given) at started) in
      (manager, same, new-policy _ (has_host gw) refl made)

-- How the main server is secured, by the variables that are set.
pub data Secured {C G : Type 0} (files : String → String → Tlscert.Disk C)
    (has_host : G → String → Bool) (env : Environment) (run : Running C G) : Type 0 where
  plain :
      getenv env "DEALER_ACME_EMAIL" ≡ ""
      → getenv env "DEALER_TLS_CERT_FILE" ≡ ""
      → getenv env "DEALER_TLS_KEY_FILE" ≡ ""
      → run.srv.tls_config ≡ none
      → Secured files has_host env run
  by_files :
      (reloader : Reloader C) (interval : ℤ)
      → getenv env "DEALER_ACME_EMAIL" ≡ ""
      → getenv env "DEALER_TLS_CERT_FILE" ≢ ""
      → getenv env "DEALER_TLS_KEY_FILE" ≢ ""
      → new_reloader (files (getenv env "DEALER_TLS_CERT_FILE") (getenv env "DEALER_TLS_KEY_FILE"))
        ≡ ok reloader
      → run.srv.tls_config ≡ some (from_files reloader)
      → run.cert_reloader ≡ some (reloader, interval)
      → Secured files has_host env run
  by_acme :
      (manager : Acmecert.Manager)
      → getenv env "DEALER_ACME_EMAIL" ≢ ""
      → getenv env "DEALER_TLS_CERT_FILE" ≡ ""
      → getenv env "DEALER_TLS_KEY_FILE" ≡ ""
      → Serves has_host run.gw manager
      → run.srv.tls_config ≡ some (from_acme manager)
      → Secured files has_host env run

module _ {C G : Type 0} (files : String → String → Tlscert.Disk C) (has_host : G → String → Bool)
    (env : Environment) (s : Settings C) (gw : G) (m : Option Acmecert.Manager) (root : Served)
    (same_email : s.acme_email ≡ getenv env "DEALER_ACME_EMAIL")
    (acme : start_acme has_host env s gw ≡ ok m) where
  abbrev Goal : Type 0
  Goal = Secured files has_host env (running env s gw m root)

  secured_by_acme :
      getenv env "DEALER_ACME_EMAIL" ≢ ""
      → FilesAre files (getenv env "DEALER_TLS_CERT_FILE") (getenv env "DEALER_TLS_KEY_FILE") s.tls
      → Goal
  secured_by_acme given (unset no_cert no_key no_tls) =
      let (manager, same, serves) =
        start_acme-Serves has_host env s gw m acme (λ e. given (sym same_email ∙ e)) in
      by_acme manager given no_cert no_key serves (ap (λ x. certificates x s.tls) same)
  secured_by_acme given (both reloader cert key made is_set) =
      absurd (cc (start_acme-no_files has_host env s gw m acme (λ e. given (sym same_email ∙ e))))

  secured_by_files :
      getenv env "DEALER_ACME_EMAIL" ≡ ""
      → FilesAre files (getenv env "DEALER_TLS_CERT_FILE") (getenv env "DEALER_TLS_KEY_FILE") s.tls
      → Goal
  secured_by_files missing (unset no_cert no_key no_tls) =
      let no_manager = start_acme-unset has_host env s gw m acme (same_email ∙ missing) in
      plain missing no_cert no_key (rw (no_manager, no_tls))
  secured_by_files missing (both reloader cert key made is_set) =
      let no_manager = start_acme-unset has_host env s gw m acme (same_email ∙ missing) in
      by_files reloader s.tls_reload_interval missing cert key made (rw (no_manager, is_set))
        (rw is_set)

module _ {C G : Type 0} (parse_duration : String → Option ℤ)
    (files : String → String → Tlscert.Disk C) (new_gateway : String → Options → Result String G)
    (has_host : G → String → Bool) (env : Environment) where
  -- What a command that starts was started from.
  pub start-running :
      {run : Running C G}
      → start parse_duration files new_gateway has_host env ≡ ok run
      → (s : Settings C) × (gw : G) × (m : Option Acmecert.Manager) × (root : Served)
        × (read_settings parse_duration files env ≡ ok s)
        × (created (new_gateway s.config_path s.options) ≡ ok gw)
        × (start_acme has_host env s gw ≡ ok m)
        × (run ≡ running env s gw m root)
  unfolding start
  start-running {run} h =
      let (s, settled, h1) = >>=-eq-ok (read_settings parse_duration files env) _ h in
      let (gw, built, h2) = >>=-eq-ok (created (new_gateway s.config_path s.options)) _ h1 in
      let (m, acme, h3) = >>=-eq-ok (start_acme has_host env s gw) _ h2 in
      let (root, mounts, h4) =
        >>=-eq-ok (mounted (info_path_of env) (new_root_mux (info_path_of env))) _ h3 in
      (s, gw, m, root, settled, built, acme, ok_value (running env s gw m root) run h4)

  -- A command that starts serves plaintext only if no TLS variable is set. With certificate files
  -- both are named, the pair that was loaded is served and watched, and there is no ACME; with an
  -- ACME email no file is named, and certificates are requested for the gateway's hosts only.
  pub start-Secured :
      {run : Running C G}
      → start parse_duration files new_gateway has_host env ≡ ok run
      → Secured files has_host env run
  start-Secured h =
      let (s, gw, m, root, settled, built, acme, same) = start-running h in
      let is_read = (read_settings-ok_iff parse_duration files env s).0 settled in
      let named = build_tls_config-FilesAre files _ _ s.tls is_read.tls in
      subst (Secured files has_host env) (sym same)
        (elim (Bool-cases (is_empty (getenv env "DEALER_ACME_EMAIL"))) [
          | inl blank ↦
              secured_by_files files has_host env s gw m root is_read.texts.1 acme
                ((eq_iff (getenv env "DEALER_ACME_EMAIL") "").0 blank) named
          | inr given ↦
              secured_by_acme files has_host env s gw m root is_read.texts.1 acme
                (ground (arith, eq_iff (getenv env "DEALER_ACME_EMAIL") "")) named
        ])
