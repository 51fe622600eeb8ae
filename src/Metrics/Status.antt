-- ===== src/Metrics/Status.antt =====
-- What gateway/internal/metrics/metrics.go records of an answer, and what the client is sent.
use dealer.Base.{
  ℕ, ◌≡◌, refl, ap, sym, subst, ◌∙◌, true, false, none, some, List, [], ◌∷◌, String, arith,
  sub_time,
}
use dealer.Http.Request.{Request}
use dealer.Http.Writer.{
  Conn, Writer, status_writer, on_top, write_header_at, write_at, write_header, write,
}
use dealer.Plugin.Contract.{Env, Handler, on_writer}
use dealer.Metrics.{Instruments, recorded_status, wrap}
use dealer.Metrics.Answers.{
  WriterOp, perform, perform_all, Phase, is_informational, is_complete, IsOrderly, status_sent,
  IsFresh, set_status, put_chunk, silent, informed, answered, taken,
}
use dealer.Metrics.Marks.{mark, mark_status, mark-write_header_at, mark-write_at}
use dealer.Metrics.Orderly.{Fits, Topped, perform_all-Topped}

-- A complete answer has its status on top.
pub Topped-status :
    (p : Phase) (status : ℕ) (c : Conn)
    → is_complete p ≡ true
    → Fits p status c
    → status ≡ status_sent c
Topped-status silent status c h fits = ground arith
Topped-status informed status c h fits = cc
Topped-status answered status c h fits = ground arith
Topped-status taken status c h fits = ground arith

pub Topped-recorded :
    (p : Phase) (w : Writer)
    → is_complete p ≡ true
    → Topped p w
    → recorded_status w.layers ≡ status_sent w.conn
Topped-recorded p w h (status, below, layered, fits) =
    ap recorded_status layered ∙ Topped-status p status w.conn h fits

-- What the recorder's writer says and what the client has, after an orderly handler.
pub recorded-perform_all :
    (ops : List WriterOp) (w : Writer)
    → IsFresh w.conn
    → IsOrderly ops
    → recorded_status (perform_all ops (on_top (status_writer 200) w)).layers
      ≡ status_sent (perform_all ops (on_top (status_writer 200) w)).conn
recorded-perform_all ops w fresh orderly =
    let (q, complete, topped) =
      perform_all-Topped ops silent (on_top (status_writer 200) w) orderly
        (200, w.layers, refl, (refl, ground arith)) in
    Topped-recorded q (perform_all ops (on_top (status_writer 200) w)) complete topped

pub status_sent-of_mark :
    (c : Conn) (status : ℕ) → mark c ≡ (some status, false) → status_sent c ≡ status
status_sent-of_mark c status h = ground arith

-- A body behind an informational status is sent under 200.
pub status_sent-informational :
    (code : ℕ) (chunk : String) (w : Writer)
    → IsFresh w.conn
    → is_informational code ≡ true
    → status_sent (perform_all (set_status code ∷ put_chunk chunk ∷ []) w).conn ≡ 200
unfolding perform_all perform write_header write
status_sent-informational code chunk w fresh early =
    let first = write_header_at code w.layers w.conn in
    let unsent : mark_status code (mark w.conn) ≡ (none, false) = ground arith in
    let still : mark first.conn ≡ (none, false) =
      mark-write_header_at code w.layers w.conn ∙ unsent in
    status_sent-of_mark (write_at chunk first.layers first.conn).conn 200
      (mark-write_at chunk first.layers first.conn ∙ ap (mark_status 200) still)

pub recorded-informational :
    (code : ℕ) (chunk : String) (w : Writer)
    → recorded_status
        (perform_all (set_status code ∷ put_chunk chunk ∷ []) (on_top (status_writer 200) w)).layers
      ≡ code
unfolding perform_all perform write_header write write_header_at write_at
recorded-informational code chunk w = refl

module _ {S : Type 0} (m : Instruments S) where
  -- If the wrapped handler does with its writer, on a connection on which nothing has happened, what
  -- an orderly sequence of operations does, then the recorder counts the request once, under the
  -- service, the method and the very status that the client has, whatever writers are below.
  pub wrap-counts_sent :
      (service : String) (next : Handler S) (r : Request) (e : Env S) (ops : List WriterOp)
      → IsFresh e.writer.conn
      → IsOrderly ops
      → (next r (on_writer (on_top (status_writer 200)) e)).writer
        ≡ perform_all ops (on_top (status_writer 200) e.writer)
      → let done = next r (on_writer (on_top (status_writer 200)) e) in
        (wrap m service next r e).state
        ≡ m.inc service r.method
            (status_sent (wrap m service next r e).writer.conn)
            (m.observe service r.method (sub_time (m.now done.state) (m.now e.state)) done.state)
  unfolding wrap
  wrap-counts_sent service next r e ops fresh orderly does =
      let done = next r (on_writer (on_top (status_writer 200)) e) in
      ap
        (λ status.
          m.inc service r.method status
            (m.observe service r.method (sub_time (m.now done.state) (m.now e.state)) done.state))
        (subst (λ w. recorded_status w.layers ≡ status_sent w.conn) (sym does)
          (recorded-perform_all ops e.writer fresh orderly))

  -- A handler that sends an informational status and then a body with no final status: the client
  -- has a 200 and the recorder counts the informational status.
  pub wrap-counts_informational :
      (service : String) (next : Handler S) (r : Request) (e : Env S) (code : ℕ) (chunk : String)
      → IsFresh e.writer.conn
      → is_informational code ≡ true
      → (next r (on_writer (on_top (status_writer 200)) e)).writer
        ≡ perform_all (set_status code ∷ put_chunk chunk ∷ []) (on_top (status_writer 200) e.writer)
      → let done = next r (on_writer (on_top (status_writer 200)) e) in
        (status_sent (wrap m service next r e).writer.conn ≡ 200)
        × ((wrap m service next r e).state
            ≡ m.inc service r.method code (
                m.observe service r.method
                  (sub_time (m.now done.state) (m.now e.state))
                  done.state))
  unfolding wrap
  wrap-counts_informational service next r e code chunk fresh early does =
      let done = next r (on_writer (on_top (status_writer 200)) e) in
      (
        ap (λ w. status_sent w.conn) does
            ∙ status_sent-informational code chunk (on_top (status_writer 200) e.writer) fresh
                early,
        ap
              (λ w. m.inc service r.method (recorded_status w.layers) (
                m.observe service r.method (sub_time (m.now done.state) (m.now e.state))
                  done.state))
              does
            ∙ ap
                (λ status. m.inc service r.method status (
                  m.observe service r.method (sub_time (m.now done.state) (m.now e.state))
                    done.state))
                (recorded-informational code chunk e.writer),
      )
