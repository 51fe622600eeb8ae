-- ===== src/Command/Servers/Watching.antt =====
-- How cmd/dealer/main.go watches the certificate files.
use dealer.Base.{
  ◌≡◌, ◌≢◌, ◌↔◌, inl, inr, ap, sym, subst, ◌∙◌, true, Option, none, some, List, String, ℤ, pos,
  leb_ℤ, arith, Bool, Result, ok, Event, with_ticker-none_iff,
}
use dealer.Command.Environment.{Environment, getenv}
use dealer.Command.Servers.{Running, start, reloading}
use dealer.Command.Servers.Security.{start-running}
use dealer.Command.Settings.{default_tls_reload_interval}
use dealer.Command.Settings.Reading.{Gives, read_settings-ok_iff}
use dealer.Gateway.Options.{Options}
use dealer.Tlscert as Tlscert
use dealer.Tlscert.{Reloader, Files}

-- The variable is set to a duration that is not positive.
abbrev pub HasBadInterval : (String → Option ℤ) → Environment → Type 0
HasBadInterval parse_duration env =
    (getenv env "DEALER_TLS_RELOAD_INTERVAL" ≢ "")
    × ((d : ℤ) × (parse_duration (getenv env "DEALER_TLS_RELOAD_INTERVAL") ≡ some d)
        × (leb_ℤ d (pos 0) ≡ true))

module _ (parse_duration : String → Option ℤ) (env : Environment) where
  bad_iff :
      (d : ℤ)
      → Gives env "DEALER_TLS_RELOAD_INTERVAL" parse_duration default_tls_reload_interval d
      → (leb_ℤ d (pos 0) ≡ true) ↔ HasBadInterval parse_duration env
  bad_iff d (inl (unset, same)) =
      (λ bad. absurd (ground arith), λ (given, later). absurd (given unset))
  bad_iff d (inr (given, parses)) =
      (λ bad. (given, (d, parses, bad)), λ (set_, (e, found, bad)). ground arith)

reloading-interval :
    {C : Type 0} (tls : Option (Reloader C)) (interval d : ℤ) (r : Reloader C)
    → reloading tls interval ≡ some (r, d)
    → interval ≡ d
reloading-interval none interval d r h = cc
reloading-interval (some s) interval d r h = cc

module _ {C G : Type 0} (parse_duration : String → Option ℤ)
    (files : String → String → Tlscert.Disk C) (new_gateway : String → Options → Result String G)
    (has_host : G → String → Bool) where
  -- Once a command that serves certificate files has started, the goroutine that watches them panics
  -- exactly if DEALER_TLS_RELOAD_INTERVAL is set to a duration that is not positive.
  pub watching-panics_iff :
      (env : Environment) (run : Running C G) (r : Reloader C) (d : ℤ)
      (events : List (Event (Files C)))
      → start parse_duration files new_gateway has_host env ≡ ok run
      → run.cert_reloader ≡ some (r, d)
      → (Tlscert.start d events r ≡ none) ↔ HasBadInterval parse_duration env
  unfolding Tlscert.start
  watching-panics_iff env run r d events started watched =
      let (s, gw, m, root, settled, built, acme, same) =
        start-running parse_duration files new_gateway has_host env started in
      let is_read = (read_settings-ok_iff parse_duration files env s).0 settled in
      let interval =
        reloading-interval s.tls s.tls_reload_interval d r
          (sym (ap (λ (x : Running C G). x.cert_reloader) same) ∙ watched) in
      let bad = bad_iff parse_duration env d (
        subst
          (λ x. Gives env "DEALER_TLS_RELOAD_INTERVAL" parse_duration default_tls_reload_interval x)
          interval is_read.tls_reload_interval) in
      let panics = with_ticker-none_iff d _ in (λ h. bad.0 (panics.0 h), λ h. panics.1 (bad.1 h))
