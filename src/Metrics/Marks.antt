-- ===== src/Metrics/Marks.antt =====
-- The layers of gateway/internal/metrics/metrics.go and of the plugins leave the status alone.
use dealer.Base.{
  ℕ, ◌≡◌, refl, ap, ◌∙◌, Bool, true, false, ◌||◌, not, Option, none, some, List, [], ◌∷◌, String,
  if◌then◌else◌, leb, arith, Bool-cases, inl, inr,
}
use dealer.Http.Header.{Header}
use dealer.Http.Writer.{
  Conn, Layer, headers_writer, status_writer, apply_once, is_none, conn_write_header, conn_write,
  conn_flush, write_header_at, write_at, flush_at, hijack_at,
}
use dealer.Metrics.Answers.{is_informational}

-- Of a connection, what decides the status: the final status written, and whether it is taken over.
abbrev pub status_of : Option (ℕ × Header) → Option ℕ
status_of none = none
status_of (some (status, header)) = some status

abbrev pub Mark : Type 0
Mark = Option ℕ × Bool

abbrev pub mark : Conn → Mark
mark c = (status_of c.sent, c.hijacked)

abbrev pub mark_status : ℕ → Mark → Mark
mark_status code (status, hijacked) =
    if hijacked || not (is_none status)
    then (status, hijacked)
    else if is_informational code
    then (status, hijacked)
    else (some code, hijacked)

pub mark-conn_write_header :
    (code : ℕ) (c : Conn) → mark (conn_write_header code c) ≡ mark_status code (mark c)
unfolding conn_write_header
mark-conn_write_header code c = ground arith

pub mark-conn_write :
    (chunk : String) (c : Conn) → mark (conn_write chunk c) ≡ mark_status 200 (mark c)
unfolding conn_write
mark-conn_write chunk c = ground (arith, mark-conn_write_header 200 c)

pub mark-conn_flush : (c : Conn) → mark (conn_flush c) ≡ mark_status 200 (mark c)
unfolding conn_flush
mark-conn_flush c = ground (arith, mark-conn_write_header 200 c)

pub mark-apply_once : (p : _) (applied : Bool) (c : Conn) → mark (apply_once p applied c) ≡ mark c
mark-apply_once p true c = refl
mark-apply_once p false c = refl

-- The layers below change the header of an answer, never its status.
pub mark-write_header_at :
    (code : ℕ) (ls : List Layer) (c : Conn)
    → mark (write_header_at code ls c).conn ≡ mark_status code (mark c)
unfolding write_header_at
mark-write_header_at code [] c = mark-conn_write_header code c
mark-write_header_at code (headers_writer p applied ∷ ls) c = elim (Bool-cases (leb 200 code)) [
  | inl final ↦ rw final (
      mark-write_header_at code ls (apply_once p applied c)
      ∙ ap (mark_status code) (mark-apply_once p applied c))
  | inr early ↦ rw early (mark-write_header_at code ls c)
]
mark-write_header_at code (status_writer status ∷ ls) c = mark-write_header_at code ls c

pub mark-write_at :
    (chunk : String) (ls : List Layer) (c : Conn)
    → mark (write_at chunk ls c).conn ≡ mark_status 200 (mark c)
unfolding write_at
mark-write_at chunk [] c = mark-conn_write chunk c
mark-write_at chunk (headers_writer p applied ∷ ls) c =
    mark-write_at chunk ls (apply_once p applied c)
    ∙ ap (mark_status 200) (mark-apply_once p applied c)
mark-write_at chunk (status_writer status ∷ ls) c = mark-write_at chunk ls c

pub mark-flush_at :
    (ls : List Layer) (c : Conn) → mark (flush_at ls c).conn ≡ mark_status 200 (mark c)
unfolding flush_at
mark-flush_at [] c = mark-conn_flush c
mark-flush_at (headers_writer p applied ∷ ls) c =
    mark-flush_at ls (apply_once p applied c) ∙ ap (mark_status 200) (mark-apply_once p applied c)
mark-flush_at (status_writer status ∷ ls) c = mark-flush_at ls c

pub hijacked-hijack_at : (ls : List Layer) (c : Conn) → (hijack_at ls c).conn.hijacked ≡ true
unfolding hijack_at
hijacked-hijack_at [] c = refl
hijacked-hijack_at (headers_writer p applied ∷ ls) c = hijacked-hijack_at ls c
hijacked-hijack_at (status_writer status ∷ ls) c = hijacked-hijack_at ls c
