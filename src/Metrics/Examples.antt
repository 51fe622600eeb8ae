-- ===== src/Metrics/Examples.antt =====
-- The results on gateway/internal/metrics/metrics.go at concrete requests.
use dealer.Base.{ℕ, ◌≡◌, refl, none, List, [], ◌∷◌, pos, false}
use dealer.Http.Header.{put}
use dealer.Http.Request.{Request}
use dealer.Http.Writer.{headers_writer, write, write_header, write_header_at, write_at}
use dealer.Plugin.Contract.{Env, Handler, on_writer}
use dealer.Metrics.{Instruments, wrap}
use dealer.Metrics.Answers.{set_header, set_status, put_chunk, perform, perform_all, status_sent}
use dealer.Metrics.Status.{wrap-counts_sent}

abbrev a_request : Request
a_request = record {
  method = "GET";
  path = "/orders";
  query = [];
  header = [];
  remote_addr = "10.0.0.1:4000";
  content_length = pos 0;
  body = none;
  body_limits = [];
  client_ip = none;
  request_id = none;
  inbound_id = none;
}

abbrev an_env : Env (List ℕ)
an_env = record {
  writer = record {
    layers = headers_writer (record { headers = ("Server", "dealer") ∷ []; rules = [] }) false ∷ [];
    conn = record { header = []; sent = none; informational = []; chunks = []; hijacked = false };
  };
  state = [];
}

-- The counted statuses, and a clock that stands still.
abbrev counts : Instruments (List ℕ)
counts = record {
  now = λ s. 5;
  observe = λ service method elapsed s. s;
  inc = λ service method status s. status ∷ s;
}

-- A handler that answers by http.Error.
abbrev refusing : Handler (List ℕ)
refusing r e =
    on_writer
      (perform_all (
        set_header (put "Content-Type" "text/plain")
        ∷ set_status 401
        ∷ put_chunk "missing jwt"
        ∷ []))
      e

abbrev hinting : Handler (List ℕ)
hinting r e = on_writer (perform_all (set_status 103 ∷ put_chunk "hello" ∷ [])) e

refusal_counted : (wrap counts "orders" refusing a_request an_env).state ≡ 401 ∷ []
unfolding wrap perform_all perform write_header write_header_at write write_at
refusal_counted = refl

wrap-counts_sent_example :
    (wrap counts "orders" refusing a_request an_env).state
    ≡ status_sent (wrap counts "orders" refusing a_request an_env).writer.conn ∷ []
wrap-counts_sent_example =
    wrap-counts_sent counts "orders" refusing a_request an_env
      (set_header (put "Content-Type" "text/plain") ∷ set_status 401 ∷ put_chunk "missing jwt" ∷ [])
      (record { unsent = refl; kept = refl }) refl refl
