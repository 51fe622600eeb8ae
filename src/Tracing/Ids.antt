-- ===== src/Tracing/Ids.antt =====
-- Who sees which request id: gateway/internal/tracing/requestid.go.
use dealer.Base.{
  ℕ, ◌≡◌, refl, Bool, false, Option, some, List, String, is_empty, eq_refl, if◌then◌else◌,
  Bool-cases, inl, inr,
}
use dealer.Http.Header as Header
use dealer.Http.Header.{lookup, insert, canonical, lookup-insert}
use dealer.Http.Request.{Request}
use dealer.Http.Writer.{with_header}
use dealer.Plugin.Contract.{Env, Handler, on_writer}
use dealer.Tracing.{header_name, choose_id, middleware, preserve_inbound, from_context, new_id}

get-put : (key value : String) (h : Header.Header) → Header.get (Header.put key value h) key ≡ value
get-put key value h = simp (lookup-insert, eq_refl)

-- What the handler behind the middleware finds: one id in the context, in the forwarded request and
-- on the response.
pub record SeesId (id : String) {S : Type 0} (r : Request) (e : Env S) : Type 0 where
  pub in_context : from_context r ≡ id
  pub forwarded : Header.get r.header "X-Request-Id" ≡ id
  pub on_response : Header.get e.writer.conn.header "X-Request-Id" ≡ id

module _ {S : Type 0} (rand : S → Option (List ℕ)) (r : Request) (e : Env S) where
  -- The request and the environment that the middleware passes on.
  abbrev pub tagged_request : Bool → Request
  tagged_request trust = record r {
    request_id = some (choose_id trust (rand e.state) r);
    inbound_id = some (Header.get r.header "X-Request-Id");
    header = Header.put "X-Request-Id" (choose_id trust (rand e.state) r) r.header;
  }

  abbrev pub tagged_env : Bool → Env S
  tagged_env trust =
      on_writer (with_header (Header.put "X-Request-Id" (choose_id trust (rand e.state) r))) e

  -- Behind the middleware the context, the forwarded request and the response have one and the same
  -- id, whatever the handler: without trust the generated one, whatever the client sent.
  pub middleware-SeesId :
      (trust : Bool)
      → (r' : Request) × (e' : Env S) × ((next : Handler S)
          → middleware rand trust next r e ≡ next r' e')
        × SeesId (choose_id trust (rand e.state) r) r' e'
        × (trust ≡ false → from_context r' ≡ new_id (rand e.state))
  unfolding middleware from_context choose_id
  middleware-SeesId trust = (
    tagged_request trust,
    tagged_env trust,
    (λ next. refl),
    record {
      in_context = refl;
      forwarded = get-put header_name (choose_id trust (rand e.state) r) r.header;
      on_response = get-put header_name (choose_id trust (rand e.state) r) e.writer.conn.header;
    },
    (λ h. rw h),
  )

  -- With preserve_request_id the origin is sent the id that the client sent, if any, while the logs
  -- and the response keep the gateway's.
  pub preserve_inbound-middleware :
      (trust : Bool)
      → (r' : Request) × (e' : Env S) × ((next : Handler S)
          → middleware rand trust (preserve_inbound next) r e ≡ next r' e')
        × (Header.get r'.header "X-Request-Id" ≡ (
            if is_empty (Header.get r.header "X-Request-Id")
            then choose_id trust (rand e.state) r
            else Header.get r.header "X-Request-Id"))
        × (from_context r' ≡ choose_id trust (rand e.state) r)
        × (Header.get e'.writer.conn.header "X-Request-Id" ≡ choose_id trust (rand e.state) r)
  unfolding middleware preserve_inbound from_context
  preserve_inbound-middleware trust =
      elim (Bool-cases (is_empty (Header.get r.header "X-Request-Id"))) [
        | inl blank ↦ (
          tagged_request trust,
          tagged_env trust,
          (λ next. rw blank),
          rw blank (get-put header_name (choose_id trust (rand e.state) r) r.header),
          refl,
          get-put header_name (choose_id trust (rand e.state) r) e.writer.conn.header,
        )
        | inr sent ↦ (
          restored,
          tagged_env trust,
          (λ next. rw sent),
          rw sent (
              get-put header_name (Header.get r.header "X-Request-Id")
                (Header.put header_name (choose_id trust (rand e.state) r) r.header)),
          refl,
          get-put header_name (choose_id trust (rand e.state) r) e.writer.conn.header,
        )
      ]
    where
      restored : Request
      restored = record r {
        request_id = some (choose_id trust (rand e.state) r);
        inbound_id = some (Header.get r.header "X-Request-Id");
        header =
            Header.put "X-Request-Id" (Header.get r.header "X-Request-Id")
              (Header.put "X-Request-Id" (choose_id trust (rand e.state) r) r.header);
      }
