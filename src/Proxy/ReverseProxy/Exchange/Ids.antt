-- ===== src/Proxy/ReverseProxy/Exchange/Ids.antt =====
-- Which request ids a client of gateway/internal/proxy/proxy.go is sent.
use dealer.Base.{
  ℕ, ◌≡◌, refl, ap, ◌∙◌, Bool, true, false, Option, none, some, List, [], ◌∷◌, String, str_eq, leb,
  arith, Bool-cases, inl, inr, All, ltb_ℤ, leb_ℤ, pos, ℤ, Result,
}
use dealer.Http.Header as Header
use dealer.Http.Header.{canonical, lookup, insert, delete, lookup-insert}
use dealer.Http.Request.{Request}
use dealer.Http.Writer.{
  Conn, write, write_at, write_header, write_header_at, conn_write, conn_write_header,
}
use dealer.Plugin.Contract.{Env, on_writer}
use dealer.Proxy.ReverseProxy.{copy_header, add_values, modify_response}
use dealer.Proxy.ReverseProxy.Exchange.{Response, respond, chosen_transport}
use dealer.Proxy.Retry.{RetryTransport, TripError, Outgoing, round_trip}
use dealer.Tracing as Tracing
use dealer.Tracing.{choose_id}

abbrev Differs : String → String × List String → Type 0
Differs key kv = str_eq (canonical kv.0) key ≡ false

lookup-add_values :
    (key k : String) (vs : List String) (h : Header.Header)
    → str_eq (canonical k) key ≡ false
    → lookup key (add_values k vs h) ≡ lookup key h
unfolding add_values
lookup-add_values key k [] h differs = refl
lookup-add_values key k (v ∷ vs) h differs =
    lookup-add_values key k vs (Header.add k v h) differs
    ∙ lookup-insert (canonical k) key _ h
    ∙ (rw differs)

lookup-copy_header :
    (key : String) (kvs h : Header.Header)
    → All (Differs key) kvs
    → lookup key (copy_header kvs h) ≡ lookup key h
unfolding copy_header
lookup-copy_header key [] h _ = refl
lookup-copy_header key ((k, vs) ∷ kvs) h (differs, others) =
    lookup-copy_header key kvs (add_values k vs h) others ∙ lookup-add_values key k vs h differs

-- A header as it is read from a connection.
abbrev pub IsCanonical : Header.Header → Type 0
IsCanonical h = All (λ kv. canonical kv.0 ≡ kv.0) h

delete-Differs :
    (key : String) (h : Header.Header) → IsCanonical h → All (Differs key) (delete key h)
unfolding delete
delete-Differs key [] _ = tt
delete-Differs key ((k, vs) ∷ h) (same, others) = elim (Bool-cases (str_eq k key)) [
  | inl dropped ↦ rw dropped (delete-Differs key h others)
  | inr kept ↦ rw kept ((rw same kept), delete-Differs key h others)
]

respond-sent :
    (resp : Response) (c : Conn)
    → c.sent ≡ none
    → c.hijacked ≡ false
    → leb 200 resp.status ≡ true
    → (respond resp (record { layers = []; conn = c })).conn.sent
      ≡ some (resp.status, copy_header (modify_response resp.header) c.header)
unfolding respond write write_at write_header write_header_at conn_write conn_write_header
respond-sent resp c unsent kept final = ground arith

-- Behind the request-id middleware, on a connection on which nothing has happened, a response with a
-- final status is sent under that status with one X-Request-Id, the gateway's, whatever ids the
-- origin's response has in its header, if the keys of that header are canonical.
pub respond-one_id :
    {S : Type 0} (rand : S → Option (List ℕ)) (trust : Bool) (r : Request) (e : Env S)
    (resp : Response)
    → e.writer.layers ≡ []
    → e.writer.conn.sent ≡ none
    → e.writer.conn.hijacked ≡ false
    → leb 200 resp.status ≡ true
    → IsCanonical resp.header
    → (h : Header.Header) × ((Tracing.middleware rand trust
          (λ q d. on_writer (respond resp) d)
          r
          e).writer.conn.sent
        ≡ some (resp.status, h))
      × (lookup "X-Request-Id" h ≡ choose_id trust (rand e.state) r ∷ [])
unfolding Tracing.middleware modify_response canonical
respond-one_id rand trust r e resp flat unsent kept final keys =
    let id = choose_id trust (rand e.state) r in
    let c = record e.writer.conn { header = Header.put "X-Request-Id" id e.writer.conn.header } in
    (
      copy_header (modify_response resp.header) c.header,
      ap (λ ls. (respond resp (record { layers = ls; conn = c })).conn.sent) flat
          ∙ respond-sent resp c unsent kept final,
      lookup-copy_header "X-Request-Id" (modify_response resp.header) c.header
            (delete-Differs "X-Request-Id" resp.header keys)
          ∙ lookup-insert "X-Request-Id" "X-Request-Id" (id ∷ []) e.writer.conn.header,
    )

-- Whatever transport is chosen, it does what the retrying one does: for one attempt at most, that
-- is a single plain call.
pub chosen_transport-round_trip :
    (rand : ℤ → ℤ) (next : ℕ → Outgoing → Result TripError Response)
    (read : List ℕ → Result TripError (List ℕ)) (retry : RetryTransport) (req : Outgoing)
    → chosen_transport rand next read retry req ≡ round_trip rand next read retry req
unfolding chosen_transport round_trip
chosen_transport-round_trip rand next read retry req =
    elim (Bool-cases (ltb_ℤ (pos 1) retry.max_attempts)) [
      | inl many ↦ rw many
      | inr one ↦
          let single : leb_ℤ retry.max_attempts (pos 1) ≡ true = ground arith in rw (one, single)
    ]
