-- ===== src/Plugin/HttpLog.antt =====
-- gateway/internal/plugin/http_log.go. bufio.Writer is modelled with its buffer of 4096 bytes and
-- what reached the file behind it, which accepts every write. A text is the list of its characters,
-- each of which counts as one byte of the buffer. The formatted time is given with each request.
pub mod Stream
mod Examples
use dealer.Base.{
  ℕ, zero, suc, ◌-◌, Bool, true, false, List, [], ◌∷◌, ◌++◌, String, is_empty, if◌then◌else◌, leb,
  length, codes,
}
use dealer.Http.Request.{Request}
use dealer.Plugin.Contract.{Env, Handler}
use dealer.Tracing.{from_context}

abbrev pub buffer_size : ℕ
buffer_size = 4096

-- bufio.Writer
pub record BufWriter : Type 0 where
  pub written : List ℕ
  pub buffered : List ℕ

abbrev pub take : ℕ → List ℕ → List ℕ
take zero s = []
take (suc n) [] = []
take (suc n) (c ∷ s) = c ∷ take n s

abbrev pub drop : ℕ → List ℕ → List ℕ
drop zero s = s
drop (suc n) [] = []
drop (suc n) (c ∷ s) = drop n s

-- bufio.NewWriter
abbrev pub new_writer : BufWriter
new_writer = record { written = []; buffered = [] }

-- bufio.Writer.Flush
unfoldable pub flush_buffer : BufWriter → BufWriter
flush_buffer b = record { written = b.written ++ b.buffered; buffered = [] }

abbrev pub room : BufWriter → ℕ
room b = buffer_size - length b.buffered

-- What is left of a text once it filled the buffer: more than a buffer is written straight to the
-- file.
unfoldable pub write_rest : List ℕ → BufWriter → BufWriter
write_rest s b =
    if leb (length s) buffer_size
    then record { written = b.written; buffered = s }
    else record { written = b.written ++ s; buffered = [] }

abbrev pub is_blank : List ℕ → Bool
is_blank [] = true
is_blank (c ∷ s) = false

-- bufio.Writer.WriteString
unfoldable pub write_string : List ℕ → BufWriter → BufWriter
unfolding flush_buffer write_rest
write_string s b =
    if leb (length s) (room b)
    then record { written = b.written; buffered = b.buffered ++ s }
    else if is_blank b.buffered
    then record { written = b.written ++ s; buffered = [] }
    else write_rest (drop (room b) s)
        (flush_buffer (record { written = b.written; buffered = b.buffered ++ take (room b) s }))

-- bufio.Writer.WriteByte
unfoldable pub write_byte : ℕ → BufWriter → BufWriter
unfolding flush_buffer
write_byte c b =
    if leb buffer_size (length b.buffered)
    then record { written = b.written ++ b.buffered; buffered = c ∷ [] }
    else record { written = b.written; buffered = b.buffered ++ c ∷ [] }

unfoldable pub write_id : String → BufWriter → BufWriter
unfolding write_string
write_id request_id b =
    if is_empty request_id
    then b
    else write_string (codes request_id) (write_string (codes " request_id=") b)

-- log
unfoldable pub log : String → String → String → String → BufWriter → BufWriter
unfolding write_byte write_string write_id
log time method path request_id b =
    let dated = write_byte 32 (write_string (codes time) b) in
    let called = write_byte 32 (write_string (codes method) dated) in
    write_byte 10 (write_id request_id (write_string (codes path) called))

-- Wrap: the writer lies in the handlers' state, which also tells the formatted time.
module _ {S : Type 0} (read : S → BufWriter) (update : BufWriter → S → S) (time : S → String) where
  unfoldable pub wrap_http_log : Handler S → Handler S
  unfolding log from_context
  wrap_http_log next r e = next r (record e {
    state = update (log (time e.state) r.method r.path (from_context r) (read e.state)) e.state;
  })
