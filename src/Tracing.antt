-- ===== src/Tracing.antt =====
-- gateway/internal/tracing/requestid.go. The request's context holds the id and the inbound header;
-- crypto/rand is a parameter that gives sixteen bytes or none, from the handlers' state.
pub mod Ids
pub mod Otel
mod Examples
use dealer.Base.{
  ℕ, ◌/◌, ◌%◌, Option, none, some, List, [], ◌∷◌, String, is_empty, if◌then◌else◌, Bool,
}
use Prim.Native.String
use Prim.Native.String.{char_at}
use dealer.Http.Header as Header
use dealer.Http.Request.{Request}
use dealer.Http.Writer.{with_header}
use dealer.Plugin.Contract.{Env, Handler, on_writer}

abbrev pub header_name : String
header_name = "X-Request-Id"

abbrev pub hex_digits : String
hex_digits = "0123456789abcdef"

-- hex.EncodeToString
unfoldable pub encode_to_string : List ℕ → String
encode_to_string [] = ""
encode_to_string (b ∷ bs) =
    String.◌∷◌ (char_at hex_digits (b / 16))
      (String.◌∷◌ (char_at hex_digits (b % 16)) (encode_to_string bs))

-- newID
unfoldable pub new_id : Option (List ℕ) → String
unfolding encode_to_string
new_id none = ""
new_id (some bytes) = encode_to_string bytes

-- The id that Middleware settles on.
unfoldable pub choose_id : Bool → Option (List ℕ) → Request → String
unfolding new_id
choose_id trust_inbound bytes r =
    let inbound = if trust_inbound then Header.get r.header header_name else "" in
    if is_empty inbound then new_id bytes else inbound

module _ {S : Type 0} (rand : S → Option (List ℕ)) where
  -- Middleware
  unfoldable pub middleware : Bool → Handler S → Handler S
  unfolding choose_id
  middleware trust_inbound next r e =
      let id = choose_id trust_inbound (rand e.state) r in
      next
        (record r {
          request_id = some id;
          inbound_id = some (Header.get r.header header_name);
          header = Header.put header_name id r.header;
        })
        (on_writer (with_header (Header.put header_name id)) e)

-- With the inbound id of the context put back, if there is one.
abbrev pub preserved : {S : Type 0} → Option String → Handler S → Handler S
preserved none next r e = next r e
preserved (some inbound) next r e =
    if is_empty inbound
    then next r e
    else next (record r { header = Header.put header_name inbound r.header }) e

-- PreserveInbound
unfoldable pub preserve_inbound : {S : Type 0} → Handler S → Handler S
preserve_inbound next r e = preserved r.inbound_id next r e

-- FromContext
unfoldable pub from_context : Request → String
from_context r = elim r.request_id [ none ↦ "" | some id ↦ id ]
