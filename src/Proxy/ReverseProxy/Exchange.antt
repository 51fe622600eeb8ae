-- ===== src/Proxy/ReverseProxy/Exchange.antt =====
-- gateway/internal/proxy/proxy.go: one exchange with an origin. httputil's reverse proxy is modelled
-- as far as the gateway relies on it: it sends what the director makes of the request, and passes
-- the response back with its headers added to those that are set.
pub mod Ids
mod Examples
use dealer.Base.{ℕ, Option, List, String, if◌then◌else◌, ℤ, pos, ltb_ℤ, Result, ok, err, [], ◌∷◌}
use dealer.Http.Header as Header
use dealer.Http.Request.{Request}
use dealer.Http.Writer.{Writer, write, write_header, with_header}
use dealer.Proxy.ReverseProxy.{direct, modify_response, copy_header}
use dealer.Proxy.Retry.{RetryTransport, TripError, Trip, Outgoing, sent, round_trip}

pub record Response : Type 0 where
  pub status : ℕ
  pub header : Header.Header
  pub body : String

-- The transport that NewReverseProxy chooses: the plain one, unless more than one attempt is asked
-- for. `next` is the plain one, by the number of its call.
unfoldable pub chosen_transport :
    (ℤ → ℤ)
    → (ℕ → Outgoing → Result TripError Response)
    → (List ℕ → Result TripError (List ℕ))
    → RetryTransport
    → Outgoing
    → Trip Response
unfolding round_trip
chosen_transport rand next read retry req =
    if ltb_ℤ (pos 1) retry.max_attempts
    then round_trip rand next read retry req
    else record { result = next 1 req; effects = sent req ∷ [] }

-- The response as it is passed to the client, behind ModifyResponse.
unfoldable pub respond : Response → Writer → Writer
unfolding modify_response copy_header
respond resp w =
    write resp.body
      (write_header resp.status (with_header (copy_header (modify_response resp.header)) w))

-- An attempt at an origin: what is written for its response, or the error of the round trip.
unfoldable pub dial_origin :
    (Request → Request)
    → (Request → Header.Header → Header.Header)
    → (Request → Result TripError Response)
    → Request
    → Result TripError (Writer → Writer)
unfolding direct respond
dial_origin original inject trip r = elim (trip (direct original inject r)) [
  | err e ↦ err e
  | ok resp ↦ ok (respond resp)
]
