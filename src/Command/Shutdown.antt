-- ===== src/Command/Shutdown.antt =====
-- cmd/dealer/main.go: how a running command ends. The servers' Shutdown is library code, of which
-- only the outcome of the main server's is used.
pub mod Ordering
use dealer.Base.{Bool, true, false, Option, none, some, List, [], ◌∷◌, ◌++◌, if◌then◌else◌}
use dealer.Command.Servers.{Server, Running}

-- What comes first: the main server's listener returns, with none for http.ErrServerClosed or no
-- error, or a signal arrives; then the main server's Shutdown succeeds within its time or not.
pub data Ending : Type 0 where
  served : Bool → Ending
  signalled : Bool → Ending

pub data Action : Type 0 where
  shutdown_debug : Action
  shutdown_metrics : Action
  shutdown_acme : Action
  shutdown_main : Action
  close_gateway : Action
  exit_fatal : Action

-- `if srv != nil { _ = srv.Shutdown(ctx) }`
abbrev pub if_running : {C : Type 0} → Option (Server C) → Action → List Action
if_running none action = []
if_running (some srv) action = action ∷ []

-- The deferred gw.Close runs when main returns, and not under log.Fatalf, which exits at once.
abbrev pub leave : Bool → List Action
leave failed = if failed then exit_fatal ∷ [] else close_gateway ∷ []

-- The select at the end of main, and the deferred call.
unfoldable pub wind_up : {C G : Type 0} → Running C G → Ending → List Action
wind_up run (served failed) = leave failed
wind_up run (signalled failed) =
    if_running run.debug_srv shutdown_debug
    ++ if_running run.metrics_srv shutdown_metrics
    ++ if_running run.acme_http_srv shutdown_acme
    ++ shutdown_main ∷ leave failed
