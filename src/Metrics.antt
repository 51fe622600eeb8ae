-- ===== src/Metrics.antt =====
-- gateway/internal/metrics/metrics.go. The Prometheus library is a parameter: what observing a
-- duration and counting a request do to the handlers' state. The recorder's writer is the status
-- layer of Http/Writer.antt; a status label is its number, which strconv.Itoa prints.
pub mod Answers
mod Marks
mod Orderly
pub mod Status
mod Examples
use dealer.Base.{ℕ, List, [], ◌∷◌, String, ℤ, sub_time}
use dealer.Http.Writer.{Layer, status_writer, on_top}
use dealer.Plugin.Contract.{Env, Handler, on_writer}
use dealer.Plugin.ResponseHeaders.{pop}

-- sw.status: the status of the layer that Wrap has put on top.
abbrev pub recorded_status : List Layer → ℕ
recorded_status (status_writer status ∷ ls) = status
recorded_status _ = 200

-- The clock, the histogram's Observe and the counter's Inc, at their labels.
pub record Instruments (S : Type 0) : Type 0 where
  pub now : S → ℕ
  pub observe : String → String → ℤ → S → S
  pub inc : String → String → ℕ → S → S

module _ {S : Type 0} (m : Instruments S) where
  -- Wrap
  unfoldable pub wrap : String → Handler S → Handler S
  wrap service next r e =
      let done = next r (on_writer (on_top (status_writer 200)) e) in
      let observed =
        m.observe service r.method (sub_time (m.now done.state) (m.now e.state)) done.state in
      record {
        writer = pop done.writer;
        state = m.inc service r.method (recorded_status done.writer.layers) observed;
      }
