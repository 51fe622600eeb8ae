-- ===== src/Proxy/ReverseProxy/Forwarding.antt =====
-- The headers that are forwarded and passed back: gateway/internal/proxy/proxy.go.
use dealer.Base.{
  ◌≡◌, ◌∙◌, false, none, some, List, [], String, str_eq, eq_refl, if◌then◌else◌, arith,
}
use dealer.Http.Header as Header
use dealer.Http.Header.{lookup, insert, canonical, lookup-insert, lookup-delete}
use dealer.Http.Request.{Request}
use dealer.Http.Writer.{
  Conn, conn_write_header, conn_write, write, write_at, write_header, write_header_at,
}
use dealer.Proxy.ReverseProxy.{direct, modify_response, write_bad_gateway}

-- The origin sees the client's User-Agent, whatever the proxy's own director does to it, if the
-- trace context leaves that header alone.
pub direct-user_agent :
    (original : Request → Request) (inject : Request → Header.Header → Header.Header) (r : Request)
    → ((q : Request) (h : Header.Header)
        → Header.get (inject q h) "User-Agent" ≡ Header.get h "User-Agent")
    → Header.get (direct original inject r).header "User-Agent" ≡ Header.get r.header "User-Agent"
unfolding direct
direct-user_agent original inject r keeps = keeps (original r) _ ∙ simp (lookup-insert, eq_refl)

-- An origin's X-Request-Id is taken off, in every spelling that has the same canonical key, and
-- every other header stays.
pub lookup-modify_response :
    (h : Header.Header) (key : String)
    → lookup key (modify_response h)
      ≡ (if str_eq (canonical "X-Request-Id") key then [] else lookup key h)
unfolding modify_response
lookup-modify_response h key = lookup-delete (canonical "X-Request-Id") key h

-- On a connection that nothing was sent on, the 502 is sent with its content type and its body.
pub write_bad_gateway-sent :
    (encode : List (String × String) → String) (name : String) (c : Conn)
    → c.sent ≡ none
    → c.hijacked ≡ false
    → ((write_bad_gateway encode name (record { layers = []; conn = c })).conn.sent
        ≡ some (502, Header.put "Content-Type" "application/json" c.header))
unfolding write_bad_gateway write write_at write_header write_header_at conn_write conn_write_header
write_bad_gateway-sent encode name c s h = ground arith
