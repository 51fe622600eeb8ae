-- ===== src/Proxy/ReverseProxy.antt =====
-- gateway/internal/proxy/proxy.go: what NewReverseProxy adds to httputil's reverse proxy. The
-- proxy's own director, the injection of the trace context and the JSON encoder are parameters.
pub mod Forwarding
pub mod Exchange
use dealer.Base.{List, [], ◌∷◌, String}
use dealer.Http.Header as Header
use dealer.Http.Request.{Request}
use dealer.Http.Writer.{Writer, write, write_header, with_header}

-- The Director: the client's User-Agent is put back behind the proxy's own director.
unfoldable pub direct :
    (Request → Request) → (Request → Header.Header → Header.Header) → Request → Request
direct original inject r =
    let user_agent = Header.get r.header "User-Agent" in
    let r' = original r in
    record r' { header = inject r' (Header.put "User-Agent" user_agent r'.header) }

-- ModifyResponse, on the header of the origin's response.
unfoldable pub modify_response : Header.Header → Header.Header
modify_response h = Header.del "X-Request-Id" h

-- The reverse proxy adds the origin's headers to those that are set already.
unfoldable pub add_values : String → List String → Header.Header → Header.Header
add_values key [] h = h
add_values key (v ∷ vs) h = add_values key vs (Header.add key v h)

unfoldable pub copy_header : Header.Header → Header.Header → Header.Header
unfolding add_values
copy_header [] h = h
copy_header ((k, vs) ∷ kvs) h = copy_header kvs (add_values k vs h)

-- writeBadGateway; `encode` is json.NewEncoder's output for a map.
unfoldable pub write_bad_gateway : (List (String × String) → String) → String → Writer → Writer
write_bad_gateway encode name w =
    write (encode (("error", "bad_gateway") ∷ ("service", name) ∷ []))
      (write_header 502 (with_header (Header.put "Content-Type" "application/json") w))
