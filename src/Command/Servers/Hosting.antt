-- ===== src/Command/Servers/Hosting.antt =====
-- The command of cmd/dealer/main.go over the gateway of gateway/gateway.go: for which hosts it
-- requests certificates, as its configuration file is edited.
use dealer.Base.{
  All, List, sym, refl, ◌≡◌, ◌≢◌, ◌↔◌, ap, subst, ◌∙◌, true, Option, some, String, ℤ, Bool, Result,
  ok, err, elem, to_lower, trim_suffix,
}
use dealer.Acmecert as Acmecert
use dealer.ClientIp.{NetIp}
use dealer.Command.Environment.{Environment, getenv, env_or}
use dealer.Command.Servers.{Running, from_acme, created, start}
use dealer.Command.Servers.Security.{
  Secured, plain, by_files, by_acme, Serves, start-running, start-Secured,
}
use dealer.Command.Settings.Reading.{read_settings-ok_iff}
use dealer.Config.Hosts.{hosts}
use dealer.Config.Parse.{ConfigError}
use dealer.Config.Types.{Config}
use dealer.Gateway.Generations.{has_host}
use dealer.Config.Watcher.{Disk, FileInfo, new_watcher}
use dealer.Gateway.Reloading.{poll_all}
use dealer.Gateway.Reloading.Freshness.{IsWhole, Runs, in_force, poll_all-Runs}
use dealer.Gateway.Options.{Options, ResolvedOptions}
use dealer.Gateway.Startup.{NewError, Started, new}
use dealer.Gateway.Startup.Building.{new-IsBuilt}
use dealer.Tlscert as Tlscert
use dealer.Tlscert.{Files}

-- The error's message, for log.Fatalf.
abbrev pub reported {ℓ} : {E : Type 0} {A : Type ℓ} → (E → String) → Result E A → Result String A
reported show (err e) = err (show e)
reported show (ok a) = ok a

ok-reported :
    {E A : Type 0} (show : E → String) (m : Result E A) (a : A)
    → created (reported show m) ≡ ok a
    → m ≡ ok a
ok-reported show (err e) a h = cc
ok-reported show (ok b) a h = cc

acme_only :
    {C G : Type 0} (files : String → String → Tlscert.Disk C) (knows : G → String → Bool)
    (env : Environment) (run : Running C G)
    → getenv env "DEALER_ACME_EMAIL" ≢ ""
    → Secured files knows env run
    → (manager : Acmecert.Manager) × (run.srv.tls_config ≡ some (from_acme manager))
      × Serves knows run.gw manager
acme_only files knows env run given (plain missing _ _ _) = absurd (given missing)
acme_only files knows env run given (by_files _ _ missing _ _ _ _ _) = absurd (given missing)
acme_only files knows env run given (by_acme manager _ _ _ serves config) =
    (manager, config, serves)

module _ {C F E M X R : Type 0} (parse_duration : String → Option ℤ)
    (files : String → String → Tlscert.Disk C) (ip : NetIp)
    (load : String → Result ConfigError (Config F)) (new_exporter : String → Result String X)
    (new_resource : String → Result String R) (build : ResolvedOptions → Config F → Result E M)
    (watched : String → Option FileInfo) (show : NewError E → String)
    (found : List (Disk (Config F) ConfigError)) where
  -- gateway.New, as main calls it.
  abbrev pub new_gateway : String → Options → Result String (Started F E M X R ip)
  new_gateway path opts =
      reported show (new ip load new_exporter new_resource build watched path opts)

  -- gw.HasHost, asked after the watcher's polls found `found`.
  abbrev pub knows_host : Started F E M X R ip → String → Bool
  knows_host g host = has_host (poll_all g.rebuild found (g.watcher, g.gateway)).1 host

  abbrev pub config_path : Environment → String
  config_path env = env_or env "DEALER_CONFIG_PATH" "config.yml"

  built-Runs :
      (content : FileInfo → Result ConfigError (Config F)) (info : FileInfo) (path : String)
      (opts : Options) (g : Started F E M X R ip)
      → load path ≡ content info
      → watched path ≡ some info
      → new ip load new_exporter new_resource build watched path opts ≡ ok g
      → (cfg : Config F) × (load path ≡ ok cfg)
        × Runs content g.rebuild (cfg, g.gateway.mux) (g.watcher, g.gateway)
  unfolding new_watcher
  built-Runs content info path opts g reads sees made =
      let b = new-IsBuilt ip load new_exporter new_resource build watched path opts g made in
      (
        b.cfg,
        b.was_loaded,
        record {
          recorded = rw (b.watches, sees, sym reads, b.was_loaded, b.rebuilds, b.routes) refl;
          routes = refl;
          known = b.knows;
        },
      )

  -- With an ACME email, a command that starts has loaded its configuration, and whatever the polls
  -- of its watcher have found since, a certificate may be requested for a host exactly if a service
  -- of the configuration in force has it, in any case and with or without a trailing dot: that of the
  -- last version that a poll saw and that loads and compiles, or else the one loaded at the start.
  -- The conditions: the content of the file is determined by its modification time and its size, a
  -- poll that sees a version loads that version's content, no edit comes between New's two readings
  -- of the file, and no version makes buildMux or a prober panic.
  pub start-hosts :
      (env : Environment) (run : Running C (Started F E M X R ip))
      (content : FileInfo → Result ConfigError (Config F)) (info : FileInfo)
      → start parse_duration files new_gateway knows_host env ≡ ok run
      → getenv env "DEALER_ACME_EMAIL" ≢ ""
      → load (config_path env) ≡ content info
      → watched (config_path env) ≡ some info
      → All (IsWhole content run.gw.rebuild) found
      → (manager : Acmecert.Manager) × (cfg : Config F) × (run.srv.tls_config
          ≡ some (from_acme manager))
        × (load (config_path env) ≡ ok cfg)
        × ((host : String)
            → (manager.host_policy host ≡ ok tt) ↔ (
                elem
                  (trim_suffix (to_lower host) ".")
                  (hosts (in_force content run.gw.rebuild (cfg, run.gw.gateway.mux) found).0)
                ≡ true))
  unfolding has_host
  start-hosts env run content info started given reads sees whole =
      let (s, gw, m, root, settled, built, acme, same) =
        start-running parse_duration files new_gateway knows_host env started in
      let is_read = (read_settings-ok_iff parse_duration files env s).0 settled in
      let path : s.config_path ≡ config_path env = is_read.texts.0 in
      let same_gw : gw ≡ run.gw = sym (ap (λ (x : Running C (Started F E M X R ip)). x.gw) same) in
      let made =
        subst
          (λ g. new ip load new_exporter new_resource build watched s.config_path s.options ≡ ok g)
          same_gw (ok-reported show _ gw built) in
      let (cfg, was_loaded, runs) =
        built-Runs content info s.config_path s.options run.gw (ap load path ∙ reads)
          (ap watched path ∙ sees) made in
      let (manager, config, serves) =
        acme_only files knows_host env run given
          (start-Secured parse_duration files new_gateway knows_host env started) in
      let later =
        poll_all-Runs content run.gw.rebuild (cfg, run.gw.gateway.mux) found
          (run.gw.watcher, run.gw.gateway) whole runs in
      (
        manager,
        cfg,
        config,
        sym (ap load path) ∙ was_loaded,
        λ host.
            subst
              (λ hs.
                (manager.host_policy host ≡ ok tt)
                ↔ (elem (trim_suffix (to_lower host) ".") hs ≡ true))
              later.known (serves host),
      )
