-- ===== src/Command/Serving/Deciding.antt =====
-- What ends a command of cmd/dealer/main.go.
use dealer.Base.{◌≡◌, refl, sym, ap, Bool, not, some, List, [], ◌∷◌, ◌++◌, map, any, if◌then◌else◌}
use mathlib.Core.List.{append_assoc}
use dealer.Command.Servers.{Running}
use dealer.Command.Serving.{
  Side, Returned, Line, shutting_down, Event, side_returned, main_returned, signal, is_broken,
  error_line, returned_line, side_of, command,
}
use dealer.Command.Shutdown.{
  Ending, served, signalled, Action, shutdown_main, close_gateway, exit_fatal, wind_up,
}
use dealer.Command.Shutdown.Ordering.{failed_of, is_close, last_of, wind_up-closes}

-- The events that leave the select.
pub data Decides : Event → Ending → List Line → Type 0 where
  by_server :
      (result : Returned)
      → Decides (main_returned result) (served (is_broken result)) (error_line result)
  by_signal : (failed : Bool) → Decides (signal failed) (signalled failed) (shutting_down ∷ [])

abbrev pub returning : Side × Returned → Event
returning (side, result) = side_returned side result

module _ {C G : Type 0} (run : Running C G) where
  -- What the servers beside the main one log.
  abbrev pub side_lines : List (Side × Returned) → List Line
  side_lines [] = []
  side_lines ((side, result) ∷ rest) =
      returned_line side result (side_of run side) ++ side_lines rest

  command-decided :
      (sides : List (Side × Returned)) (later : List Event) {e : Event} {end : Ending}
      {lines : List Line}
      → Decides e end lines
      → command run (map returning sides ++ e ∷ later)
        ≡ (side_lines sides ++ lines, some (wind_up run end))
  unfolding command
  command-decided [] later (by_server result) = refl
  command-decided [] later (by_signal failed) = refl
  command-decided ((side, result) ∷ rest) later {end = end} {lines = lines} d =
      rw (command-decided rest later d) (
        ap (λ logged. (logged, some (wind_up run end)))
          (sym
            (append_assoc (returned_line side result (side_of run side)) (side_lines rest) lines)))

  -- A command ends by its main server or by a signal, whichever comes first, and whatever the other
  -- servers did before: each of those that failed is logged and nothing more. It closes the gateway,
  -- and then last of all, exactly if the main server did not fail: if its listener fails, or its
  -- shutdown does not finish in time, it exits without closing it.
  pub command-closes :
      (sides : List (Side × Returned)) (later : List Event) {e : Event} {end : Ending}
      {lines : List Line}
      → Decides e end lines
      → (actions : List Action) × (command run (map returning sides ++ e ∷ later)
          ≡ (side_lines sides ++ lines, some actions))
        × (any is_close actions ≡ not (failed_of end))
        × (last_of shutdown_main actions ≡ (if failed_of end then exit_fatal else close_gateway))
  command-closes sides later {end = end} d = (
    wind_up run end,
    command-decided sides later d,
    (wind_up-closes run end).0,
    (wind_up-closes run end).1,
  )
