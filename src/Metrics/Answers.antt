-- ===== src/Metrics/Answers.antt =====
-- The handlers that gateway/internal/metrics/metrics.go wraps, by what they do with the writer.
use dealer.Base.{
  ℕ, ◌≡◌, Bool, true, false, ◌&&◌, not, ◌==◌, Option, none, some, List, [], ◌∷◌, String,
  if◌then◌else◌, leb, ltb,
}
use dealer.Http.Header.{Header}
use dealer.Http.Writer.{Conn, Writer, write_header, write, flush, hijack, with_header}

-- What a handler does with the writer that it is given.
pub data WriterOp : Type 0 where
  set_header : (Header → Header) → WriterOp
  set_status : ℕ → WriterOp
  put_chunk : String → WriterOp
  push_out : WriterOp
  take_over : WriterOp

unfoldable pub perform : WriterOp → Writer → Writer
perform (set_header f) w = with_header f w
perform (set_status code) w = write_header code w
perform (put_chunk chunk) w = write chunk w
perform push_out w = flush w
perform take_over w = hijack w

unfoldable pub perform_all : List WriterOp → Writer → Writer
unfolding perform
perform_all [] w = w
perform_all (op ∷ ops) w = perform_all ops (perform op w)

-- How far an answer has come: nothing written, an informational status only, a final status, or
-- the connection taken over.
pub data Phase : Type 0 where
  silent : Phase
  informed : Phase
  answered : Phase
  taken : Phase

abbrev pub is_informational : ℕ → Bool
is_informational code = leb 100 code && ltb code 200 && not (code == 101)

-- The phase after an operation; none where a handler should not do it then: a second final status, a
-- body behind an informational status alone, or a status on a connection that is answered or taken.
abbrev pub advance : WriterOp → Phase → Option Phase
advance (set_header f) p = some p
advance (set_status code) silent = some (if is_informational code then informed else answered)
advance (set_status code) informed = some (if is_informational code then informed else answered)
advance (set_status code) p = none
advance (put_chunk chunk) silent = some answered
advance (put_chunk chunk) answered = some answered
advance (put_chunk chunk) p = none
advance push_out silent = some answered
advance push_out answered = some answered
advance push_out p = none
advance take_over silent = some taken
advance take_over informed = some taken
advance take_over p = none

-- A handler leaves an answer that is complete; with nothing written the server sends a 200.
abbrev pub is_complete : Phase → Bool
is_complete informed = false
is_complete p = true

abbrev pub and_then : (Phase → Bool) → Option Phase → Bool
and_then rest none = false
and_then rest (some q) = rest q

abbrev pub orderly_from : List WriterOp → Phase → Bool
orderly_from [] p = is_complete p
orderly_from (op ∷ ops) p = and_then (orderly_from ops) (advance op p)

abbrev pub IsOrderly : List WriterOp → Type 0
IsOrderly ops = orderly_from ops silent ≡ true

-- The status that a client has when the handler returns.
abbrev pub status_sent : Conn → ℕ
status_sent c =
    if c.hijacked then 101 else elim c.sent [ none ↦ 200 | some (status, header) ↦ status ]

-- A connection on which nothing has happened.
pub record IsFresh (c : Conn) : Type 0 where
  pub unsent : c.sent ≡ none
  pub kept : c.hijacked ≡ false
