-- ===== src/Http/Writer.antt =====
-- http.ResponseWriter. The server's writer (`Conn`) is below; a writer that a middleware wraps
-- around it is a layer on top, and a call goes through the layers from the top. The header map is
-- the server's, shared by all of them. The layers are those of
-- gateway/internal/plugin/response_headers.go and gateway/internal/metrics/metrics.go.
use dealer.Base.{
  ℕ, Bool, true, false, ◌&&◌, ◌||◌, not, ◌==◌, Option, none, some, List, [], ◌∷◌, ◌++◌, String,
  if◌then◌else◌, leb, ltb, to_lower, has_prefix, append,
}
use dealer.Http.Header.{Header, get, put, del}

-- The server's writer: its header map, the status line with the header as it was sent, the
-- informational responses, the chunks of the body, and whether the connection was taken over.
pub record Conn : Type 0 where
  pub header : Header
  pub sent : Option (ℕ × Header)
  pub informational : List ℕ
  pub chunks : List String
  pub hijacked : Bool

abbrev pub is_none {ℓ} : {A : Type ℓ} → Option A → Bool
is_none none = true
is_none (some a) = false

-- WriteHeader: a 1xx status but 101 is sent at once and the final one still follows; a second
-- final status is ignored.
unfoldable pub conn_write_header : ℕ → Conn → Conn
conn_write_header code c =
    if c.hijacked || not (is_none c.sent)
    then c
    else if leb 100 code && ltb code 200 && not (code == 101)
    then record c { informational = c.informational ++ code ∷ [] }
    else record c { sent = some (code, c.header) }

-- Write: 200 if no status was written.
unfoldable pub conn_write : String → Conn → Conn
unfolding conn_write_header
conn_write chunk c =
    if c.hijacked
    then c
    else let d = conn_write_header 200 c in record d { chunks = d.chunks ++ chunk ∷ [] }

-- ResponseController.Flush on the server's writer.
unfoldable pub conn_flush : Conn → Conn
unfolding conn_write_header
conn_flush c = if c.hijacked then c else conn_write_header 200 c

-- A rule of the response_headers plugin, and the plugin.
pub record ResponseHeaderRule : Type 0 where
  pub content_type : String
  pub headers : List (String × String)

pub record ResponseHeaders : Type 0 where
  pub headers : List (String × String)
  pub rules : List ResponseHeaderRule

-- `for k, v := range headers { h.Set(k, v) }`, in the order of the list.
unfoldable pub put_all : List (String × String) → Header → Header
put_all [] h = h
put_all ((k, v) ∷ kvs) h = put_all kvs (put k v h)

unfoldable pub apply_rules : String → List ResponseHeaderRule → Header → Header
unfolding put_all
apply_rules content_type [] h = h
apply_rules content_type (r ∷ rs) h =
    apply_rules content_type rs
      (if has_prefix content_type r.content_type then put_all r.headers h else h)

-- responseHeaders.apply; with no rule the content type is not looked at.
unfoldable pub apply : ResponseHeaders → Header → Header
unfolding put_all apply_rules to_lower
apply p h =
    let h' = put_all p.headers h in apply_rules (to_lower (get h' "Content-Type")) p.rules h'

-- responseHeadersWriter and statusWriter.
pub data Layer : Type 0 where
  headers_writer : ResponseHeaders → Bool → Layer
  status_writer : ℕ → Layer

pub record Writer : Type 0 where
  pub layers : List Layer
  pub conn : Conn

abbrev pub on_top : Layer → Writer → Writer
on_top l w = record w { layers = l ∷ w.layers }

-- applyOnce on the header map.
abbrev pub apply_once : ResponseHeaders → Bool → Conn → Conn
apply_once p applied c = if applied then c else record c { header = apply p c.header }

unfoldable pub write_header_at : ℕ → List Layer → Conn → Writer
unfolding conn_write_header apply
write_header_at code [] c = record { layers = []; conn = conn_write_header code c }
write_header_at code (headers_writer p applied ∷ ls) c =
    let final = leb 200 code in
    on_top (headers_writer p (applied || final))
      (write_header_at code ls (if final then apply_once p applied c else c))
write_header_at code (status_writer status ∷ ls) c =
    on_top (status_writer code) (write_header_at code ls c)

-- The status writer has no Write of its own.
unfoldable pub write_at : String → List Layer → Conn → Writer
unfolding conn_write apply
write_at chunk [] c = record { layers = []; conn = conn_write chunk c }
write_at chunk (headers_writer p applied ∷ ls) c =
    on_top (headers_writer p true) (write_at chunk ls (apply_once p applied c))
write_at chunk (status_writer status ∷ ls) c = on_top (status_writer status) (write_at chunk ls c)

-- ResponseController.Flush: the status writer is unwrapped.
unfoldable pub flush_at : List Layer → Conn → Writer
unfolding conn_flush apply
flush_at [] c = record { layers = []; conn = conn_flush c }
flush_at (headers_writer p applied ∷ ls) c =
    on_top (headers_writer p true) (flush_at ls (apply_once p applied c))
flush_at (status_writer status ∷ ls) c = on_top (status_writer status) (flush_at ls c)

-- ResponseController.Hijack: the headers writer is unwrapped, the status writer records a 101.
unfoldable pub hijack_at : List Layer → Conn → Writer
hijack_at [] c = record { layers = []; conn = record c { hijacked = true } }
hijack_at (headers_writer p applied ∷ ls) c = on_top (headers_writer p applied) (hijack_at ls c)
hijack_at (status_writer status ∷ ls) c = on_top (status_writer 101) (hijack_at ls c)

unfoldable pub write_header : ℕ → Writer → Writer
unfolding write_header_at
write_header code w = write_header_at code w.layers w.conn

unfoldable pub write : String → Writer → Writer
unfolding write_at
write chunk w = write_at chunk w.layers w.conn

unfoldable pub flush : Writer → Writer
unfolding flush_at
flush w = flush_at w.layers w.conn

unfoldable pub hijack : Writer → Writer
unfolding hijack_at
hijack w = hijack_at w.layers w.conn

-- A change of `w.Header()`.
abbrev pub with_header : (Header → Header) → Writer → Writer
with_header f w = record {
  layers = w.layers;
  conn = record {
    header = f w.conn.header;
    sent = w.conn.sent;
    informational = w.conn.informational;
    chunks = w.conn.chunks;
    hijacked = w.conn.hijacked;
  };
}

-- http.Error
unfoldable pub http_error : String → ℕ → Writer → Writer
unfolding write_header write
http_error message code w = write (append message "\n") (
    write_header code (
      with_header
        (λ h.
          put "X-Content-Type-Options" "nosniff"
            (put "Content-Type" "text/plain; charset=utf-8" (del "Content-Length" h)))
        w))
