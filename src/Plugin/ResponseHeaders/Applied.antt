-- ===== src/Plugin/ResponseHeaders/Applied.antt =====
-- When the headers of response_headers of gateway/internal/plugin/response_headers.go reach the
-- client.
use dealer.Base.{ℕ, ◌≤◌, ◌≡◌, false, none, some, [], ◌∷◌, String, arith}
use dealer.Http.Writer.{
  ResponseHeaders, headers_writer, Conn, apply, write_header, write_header_at, write, write_at,
  flush, flush_at, conn_write_header, conn_write, conn_flush,
}

-- Nothing was sent yet.
abbrev pub IsFresh : Conn → Type 0
IsFresh c = (c.sent ≡ none) × (c.hijacked ≡ false)

module _ (p : ResponseHeaders) (c : Conn) (fresh : IsFresh c) where
  -- A final status line carries the plugin's headers, put on what was set by then.
  pub write_header-applied :
      (code : ℕ)
      → 200 ≤ code
      → (write_header code (record { layers = headers_writer p false ∷ []; conn = c })).conn.sent
        ≡ some (code, apply p c.header)
  unfolding write_header write_header_at conn_write_header
  write_header-applied code h = ground arith

  -- On a connection on which nothing was sent, the status line that a write or a flush sends
  -- implicitly carries the plugin's headers, put on those that were set by then.
  pub write-applied :
      (chunk : String)
      → ((write chunk (record { layers = headers_writer p false ∷ []; conn = c })).conn.sent
          ≡ some (200, apply p c.header))
        × ((flush (record { layers = headers_writer p false ∷ []; conn = c })).conn.sent
            ≡ some (200, apply p c.header))
  unfolding write write_at conn_write conn_write_header flush flush_at conn_flush
  write-applied chunk = (ground arith, ground arith)
