-- ===== src/Command/Serving.antt =====
-- cmd/dealer/main.go: what a command does from the start of its listeners to its end. The listeners
-- are library code: that one returns, and with what, is an event, and so is a signal.
pub mod Deciding
use dealer.Base.{Bool, true, false, Option, none, some, List, [], ◌∷◌, ◌++◌, String}
use dealer.Command.Servers.{Server, Running}
use dealer.Command.Shutdown.{Ending, served, signalled, Action, wind_up}

-- How the main server listens: ListenAndServe or ListenAndServeTLS.
pub data Protocol : Type 0 where
  plain : Protocol
  tls : Protocol

unfoldable pub protocol_of : {C : Type 0} → Server C → Protocol
protocol_of srv = elim srv.tls_config [ none ↦ plain | some certificates ↦ tls ]

-- The servers beside the main one.
pub data Side : Type 0 where
  debug : Side
  acme : Side
  metrics : Side

-- What a listener returns: nil or http.ErrServerClosed, or another error.
pub data Returned : Type 0 where
  closed : Returned
  broken : String → Returned

-- The lines of the log.
pub data Line : Type 0 where
  listening : Side → String → Line
  side_error : Side → String → Line
  server_error : String → Line
  shutting_down : Line

abbrev pub side_of : {C G : Type 0} → Running C G → Side → Option (Server C)
side_of run debug = run.debug_srv
side_of run acme = run.acme_http_srv
side_of run metrics = run.metrics_srv

-- A goroutine of a server beside the main one: as it starts, and as its listener returns.
abbrev pub listening_line : {C : Type 0} → Side → Option (Server C) → List Line
listening_line side none = []
listening_line side (some srv) = listening side srv.addr ∷ []

unfoldable pub launched : {C G : Type 0} → Running C G → List Line
launched run =
    listening_line debug run.debug_srv
    ++ listening_line acme run.acme_http_srv
    ++ listening_line metrics run.metrics_srv

abbrev pub returned_line : {C : Type 0} → Side → Returned → Option (Server C) → List Line
returned_line side result none = []
returned_line side closed (some srv) = []
returned_line side (broken why) (some srv) = side_error side why ∷ []

-- What may happen: the listener of a server returns, or a signal arrives, with whether the main
-- server's Shutdown fails then.
pub data Event : Type 0 where
  side_returned : Side → Returned → Event
  main_returned : Returned → Event
  signal : Bool → Event

abbrev pub is_broken : Returned → Bool
is_broken closed = false
is_broken (broken why) = true

abbrev pub error_line : Returned → List Line
error_line closed = []
error_line (broken why) = server_error why ∷ []

-- The lines that are logged and, once the select of main is left, what is done then.
unfoldable pub command :
    {C G : Type 0} → Running C G → List Event → List Line × Option (List Action)
unfolding wind_up
command run [] = ([], none)
command run (side_returned side result ∷ es) =
    let rest = command run es in (returned_line side result (side_of run side) ++ rest.0, rest.1)
command run (main_returned result ∷ es) =
    (error_line result, some (wind_up run (served (is_broken result))))
command run (signal failed ∷ es) = (shutting_down ∷ [], some (wind_up run (signalled failed)))
