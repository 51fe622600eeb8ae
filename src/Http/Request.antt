-- ===== src/Http/Request.antt =====
-- http.Request: what the gateway's handlers read and change. A handler that changes the request it
-- passes on is given the changed record. `client_ip`, `request_id` and `inbound_id` are the values
-- of the request's context; `query` is URL.Query() as key and value pairs; `body_limits` are the
-- http.MaxBytesReaders wrapped around the body, the last one first.
use dealer.Base.{ℕ, Option, List, [], ◌∷◌, String, str_eq, if◌then◌else◌, ℤ}
use dealer.Http.Header.{Header}

pub record Request : Type 0 where
  pub method : String
  pub path : String
  pub query : List (String × String)
  pub header : Header
  pub remote_addr : String
  pub content_length : ℤ
  pub body : Option (List ℕ)
  pub body_limits : List ℤ
  pub client_ip : Option String
  pub request_id : Option String
  pub inbound_id : Option String

-- url.Values.Get
unfoldable pub query_get : List (String × String) → String → String
query_get [] key = ""
query_get ((k, v) ∷ q) key = if str_eq k key then v else query_get q key
