-- ===== src/ClientIp/Examples.antt =====
-- The resolver's theorem at a concrete chain of proxies.
use dealer.Base.{◌≡◌, refl, none, some, [], ◌∷◌, ◌++◌, String, has_prefix, if◌then◌else◌, pos}
use dealer.Http.Header as Header
use dealer.Http.Request.{Request}
use dealer.ClientIp.{NetIp, Resolver, peer_addr, forwarded_for, resolve, is_trusted}
use dealer.ClientIp.Walk.{resolve-rightmost_untrusted}

-- An address is its text, a prefix is the beginning of one; a text with a letter x is neither.
abbrev texts : NetIp
texts = record {
  Addr = String;
  Prefix = String;
  parse_addr = λ s. if has_prefix s "x" then none else some s;
  parse_prefix = λ s. if has_prefix s "x" then none else some s;
  masked = λ p. p;
  whole = λ a. a;
  unmap = λ a. a;
  show = λ a. a;
  contains = λ p a. has_prefix a p;
  split_host = λ s. none;
}

abbrev proxies : Resolver texts
proxies = record { trusted = "10." ∷ [] }

abbrev request : Request
request = record {
  method = "GET";
  path = "/";
  query = [];
  header = ("X-Forwarded-For", "1.1.1.1, 203.0.113.7, 10.0.0.9" ∷ []) ∷ [];
  remote_addr = "10.0.0.1";
  content_length = pos 0;
  body = none;
  body_limits = [];
  client_ip = none;
  request_id = none;
  inbound_id = none;
}

hops : forwarded_for texts request ≡ ("1.1.1.1" ∷ []) ++ "203.0.113.7" ∷ "10.0.0.9" ∷ []
unfolding forwarded_for Header.lookup Header.canonical
hops = refl

peer : peer_addr texts request ≡ "10.0.0.1"
unfolding peer_addr
peer = refl

resolve-rightmost_untrusted_example : resolve texts (some proxies) request ≡ "203.0.113.7"
unfolding is_trusted peer_addr
resolve-rightmost_untrusted_example =
    resolve-rightmost_untrusted texts proxies request ("1.1.1.1" ∷ []) ("10.0.0.9" ∷ [])
      "203.0.113.7" "203.0.113.7" refl refl hops (("10.0.0.9", refl, refl), tt) refl refl
