-- ===== src/ClientIp.antt =====
-- gateway/internal/clientip/clientip.go. The address library net/netip and net.SplitHostPort are
-- parameters, with what the code uses of them.
pub mod Walk
mod Examples
use dealer.Base.{
  Bool, true, false, Option, none, some, List, [], ◌∷◌, ◌++◌, reverse, String, is_empty,
  if◌then◌else◌, not, any, Result, ok, err, ◌>>=◌, split, trim_space,
}
use dealer.Http.Header as Header
use dealer.Http.Request.{Request}
use dealer.Plugin.Contract.{Env, Handler}

-- netip.Addr and netip.Prefix. `masked` is Prefix.Masked, `whole` is PrefixFrom(addr, addr.BitLen()).
pub record NetIp : Type 1 where
  pub Addr : Type 0
  pub Prefix : Type 0
  pub parse_addr : String → Option Addr
  pub parse_prefix : String → Option Prefix
  pub masked : Prefix → Prefix
  pub whole : Addr → Prefix
  pub unmap : Addr → Addr
  pub show : Addr → String
  pub contains : Prefix → Addr → Bool
  -- net.SplitHostPort's host
  pub split_host : String → Option String

module _ (ip : NetIp) where
  open ip use {
    Addr, Prefix, parse_addr, parse_prefix, masked, whole, unmap, show, contains, split_host,
  }

  pub record Resolver : Type 0 where
    pub trusted : List Prefix

  -- The prefix that an entry of the list stands for.
  abbrev pub prefix_of : String → Option Prefix
  prefix_of entry = elim (parse_prefix entry) [
    | some prefix ↦ some (masked prefix)
    | none ↦ elim (parse_addr entry) [ some addr ↦ some (whole addr) | none ↦ none ]
  ]

  -- The loop of Parse over the entries; the error names the entry.
  unfoldable pub parse_entries : List String → Result String (List Prefix)
  unfolding trim_space
  parse_entries [] = ok []
  parse_entries (e ∷ es) =
      let rest = parse_entries es in
      if is_empty (trim_space e) then rest else elim (prefix_of (trim_space e)) [
        | none ↦ err (trim_space e)
        | some prefix ↦ rest >>= λ ps. ok (prefix ∷ ps)
      ]

  unfoldable pub parse : String → Result String Resolver
  unfolding parse_entries split
  parse entries = parse_entries (split entries b',') >>= λ ps. ok (record { trusted = ps })

  unfoldable pub is_trusted : Resolver → Addr → Bool
  is_trusted res addr = any (λ prefix. contains prefix (unmap addr)) res.trusted

  unfoldable pub peer_addr : Request → String
  peer_addr r = elim (split_host r.remote_addr) [ none ↦ r.remote_addr | some host ↦ host ]

  -- The entries of one header value that are not blank.
  unfoldable pub hops_of : List String → List String
  unfolding trim_space
  hops_of [] = []
  hops_of (h ∷ hs) = if is_empty (trim_space h) then hops_of hs else trim_space h ∷ hops_of hs

  unfoldable pub hops_of_values : List String → List String
  unfolding hops_of split
  hops_of_values [] = []
  hops_of_values (v ∷ vs) = hops_of (split v b',') ++ hops_of_values vs

  unfoldable pub forwarded_for : Request → List String
  unfolding hops_of_values
  forwarded_for r = hops_of_values (Header.values r.header "X-Forwarded-For")

  -- The loop of Resolve, over the hops from the right.
  unfoldable pub walk : Resolver → String → List String → String
  unfolding is_trusted
  walk res client [] = client
  walk res client (h ∷ hs) = elim (parse_addr h) [
    | none ↦ client
    | some hop ↦
        if not (is_trusted res hop) then show (unmap hop) else walk res (show (unmap hop)) hs
  ]

  abbrev pub is_trusted_peer : Resolver → String → Bool
  is_trusted_peer res peer = elim (parse_addr peer) [
    | none ↦ false
    | some addr ↦ is_trusted res addr
  ]

  abbrev pub trusts_nothing : Resolver → Bool
  trusts_nothing res = elim res.trusted [ [] ↦ true | p ∷ ps ↦ false ]

  -- Resolve; a nil Resolver is none.
  unfoldable pub resolve : Option Resolver → Request → String
  unfolding peer_addr forwarded_for walk
  resolve none r = peer_addr r
  resolve (some res) r =
      if trusts_nothing res
      then peer_addr r
      else if not (is_trusted_peer res (peer_addr r))
      then peer_addr r
      else walk res (peer_addr r) (reverse (forwarded_for r))

  unfoldable pub middleware : {S : Type 0} → Option Resolver → Handler S → Handler S
  unfolding resolve
  middleware res next r e = next (record r { client_ip = some (resolve res r) }) e

  -- FromRequest
  unfoldable pub from_request : Request → String
  unfolding peer_addr
  from_request r = elim r.client_ip [
    | none ↦ peer_addr r
    | some address ↦ if is_empty address then peer_addr r else address
  ]
