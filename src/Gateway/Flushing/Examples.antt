-- ===== src/Gateway/Flushing/Examples.antt =====
-- The access logs of gateway/gateway.go over a hot reload and a shutdown.
use dealer.Base.{false, ◌≡◌, refl, some, get_elem?, List, [], ◌∷◌, ◌++◌}
use dealer.Gateway.Flushing.{
  Generation, Loggers, Step, cancel, first_log_flusher, request, flush_tick, replaced_tick, reload,
  closed, run,
}
use dealer.Gateway.Flushing.Losses.{run-closed, run-unflushed}
use dealer.Plugin.HttpLog.{new_writer}
use dealer.Plugin.HttpLog.Stream as Stream
use dealer.Plugin.HttpLog.Stream.{flushed, lines}

abbrev fresh : Loggers
fresh = record {
  current = record { loggers = new_writer ∷ new_writer ∷ []; cancelled = false };
  replaced = [];
}

abbrev logging : List Step
logging = request 1 "now" "GET" "/" "" ∷ flush_tick ∷ request 0 "now" "GET" "/a" "" ∷ []

run-closed_example :
    get_elem? (run (logging ++ closed ∷ []) fresh).current.loggers 1
    ≡ some (record {
      written = lines (Stream.request "now" "GET" "/" "" ∷ flushed ∷ []);
      buffered = [];
    })
run-closed_example = run-closed logging fresh 1 (refl, (refl, (refl, tt))) refl

-- Ticks of both goroutines come after the reload, and a second reload, and Close.
abbrev after : List Step
after = replaced_tick 0 ∷ flush_tick ∷ reload [] ∷ replaced_tick 1 ∷ closed ∷ []

run-unflushed_example :
    let g = run logging (first_log_flusher (new_writer ∷ new_writer ∷ [])) in
    (newer : List Generation) × ((run
        (logging ++ reload (new_writer ∷ []) ∷ after)
        (first_log_flusher (new_writer ∷ new_writer ∷ []))).replaced
      ≡ newer ++ (cancel g.current ∷ g.replaced))
run-unflushed_example = run-unflushed (new_writer ∷ new_writer ∷ []) (new_writer ∷ []) logging after
