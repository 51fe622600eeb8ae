-- ===== src/Gateway/Flushing.antt =====
-- gateway/gateway.go: the buffered access logs over the life of a gateway (startLogFlusher, Close),
-- with FlushLoggers of gateway/internal/plugin/http_log.go. A generation is the http_log instances of
-- one configuration with the goroutine that flushes them; `replaced` has those before the current
-- one, the newest first. A goroutine whose context is cancelled is taken to notice that before any
-- further tick, and a request is one step, so none is still in flight on a replaced instance.
pub mod Losses
mod Examples
use dealer.Base.{
  ℕ, zero, suc, List, [], ◌∷◌, Bool, true, false, if◌then◌else◌, Option, none, some, String,
  get_elem?, set,
}
use dealer.Plugin.HttpLog.{BufWriter, flush_buffer, log}

pub record Generation : Type 0 where
  pub loggers : List BufWriter
  pub cancelled : Bool

pub record Loggers : Type 0 where
  pub current : Generation
  pub replaced : List Generation

-- FlushLoggers
unfoldable pub flush_loggers : List BufWriter → List BufWriter
unfolding flush_buffer
flush_loggers [] = []
flush_loggers (b ∷ bs) = flush_buffer b ∷ flush_loggers bs

-- The goroutine of startLogFlusher at a tick of its ticker.
unfoldable pub flusher : Generation → Generation
unfolding flush_loggers
flusher gen = if gen.cancelled then gen else record gen { loggers = flush_loggers gen.loggers }

-- The call of a context's cancel function.
abbrev pub cancel : Generation → Generation
cancel gen = record gen { cancelled = true }

-- startLogFlusher in New, where there is no goroutine to cancel.
unfoldable pub first_log_flusher : List BufWriter → Loggers
first_log_flusher loggers = record {
  current = record { loggers = loggers; cancelled = false };
  replaced = [];
}

-- startLogFlusher in a hot reload, with the loggers of the new plugins: the goroutine before is
-- cancelled.
unfoldable pub start_log_flusher : List BufWriter → Loggers → Loggers
start_log_flusher loggers g = record {
  current = record { loggers = loggers; cancelled = false };
  replaced = cancel g.current ∷ g.replaced;
}

-- Of Close, the end of the current goroutine and the last flush.
unfoldable pub close : Loggers → Loggers
unfolding flush_loggers
close g = record g {
  current = record { loggers = flush_loggers g.current.loggers; cancelled = true };
}

-- A request that the logger at a position logs, if there is one.
abbrev pub logged_by :
    ℕ → (BufWriter → BufWriter) → Option BufWriter → List BufWriter → List BufWriter
logged_by i write none bs = bs
logged_by i write (some b) bs = set bs i (write b)

abbrev pub logged : ℕ → String → String → String → String → List BufWriter → List BufWriter
logged i time method path id bs = logged_by i (log time method path id) (get_elem? bs i) bs

-- The tick of a replaced generation's goroutine.
unfoldable pub tick_at : ℕ → List Generation → List Generation
unfolding flusher
tick_at n [] = []
tick_at zero (gen ∷ gens) = flusher gen ∷ gens
tick_at (suc n) (gen ∷ gens) = gen ∷ tick_at n gens

-- What happens to the loggers: a request, a tick of the current goroutine or of one before, a hot
-- reload, the end.
pub data Step : Type 0 where
  request : ℕ → String → String → String → String → Step
  flush_tick : Step
  replaced_tick : ℕ → Step
  reload : List BufWriter → Step
  closed : Step

unfoldable pub step : Step → Loggers → Loggers
unfolding flusher tick_at start_log_flusher close
step (request i time method path id) g = record g {
  current = record g.current { loggers = logged i time method path id g.current.loggers };
}
step flush_tick g = record g { current = flusher g.current }
step (replaced_tick n) g = record g { replaced = tick_at n g.replaced }
step (reload loggers) g = start_log_flusher loggers g
step closed g = close g

unfoldable pub run : List Step → Loggers → Loggers
unfolding step
run [] g = g
run (s ∷ ss) g = run ss (step s g)
