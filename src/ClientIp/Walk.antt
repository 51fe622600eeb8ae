-- ===== src/ClientIp/Walk.antt =====
-- Whom gateway/internal/clientip/clientip.go takes for the client.
use dealer.Base.{◌≡◌, true, false, none, some, List, [], ◌∷◌, ◌++◌, reverse, String, arith, All}
use mathlib.Core.List.{reverse_aux, reverse-append, reverse-cons, append_assoc}
use dealer.Http.Request.{Request}
use dealer.ClientIp.{
  NetIp, Resolver, is_trusted, peer_addr, forwarded_for, walk, is_trusted_peer, trusts_nothing,
  resolve,
}

module _ (ip : NetIp) (res : Resolver ip) where
  open ip use {Addr, parse_addr, show, unmap}

  -- A hop that is a trusted proxy.
  abbrev pub IsProxy : String → Type 0
  IsProxy h = (a : Addr) × (parse_addr h ≡ some a) × (is_trusted ip res a ≡ true)

  -- The walk passes over trusted proxies and stops at the first hop that is none: that is the
  -- client, and what stands left of it is not looked at.
  walk-untrusted :
      (client : String) (proxies claimed : List String) (h : String) (a : Addr)
      → All IsProxy proxies
      → parse_addr h ≡ some a
      → is_trusted ip res a ≡ false
      → walk ip res client (proxies ++ h ∷ claimed) ≡ show (unmap a)
  unfolding walk
  walk-untrusted client [] claimed h a _ e u = rw (e, walk) (rw u)
  walk-untrusted client (p ∷ ps) claimed h a ((b, k, t), rest) e u =
      rw (k, walk) (rw t (walk-untrusted (show (unmap b)) ps claimed h a rest e u))

  All-reverse_aux :
      (xs ys : List String) → All IsProxy xs → All IsProxy ys → All IsProxy (reverse_aux xs ys)
  All-reverse_aux [] ys h k = k
  All-reverse_aux (x ∷ xs) ys (p, h) k = All-reverse_aux xs (x ∷ ys) h (p, k)

  -- Behind a trusted peer the client is the rightmost hop of X-Forwarded-For that is not a trusted
  -- proxy, whatever is claimed to its left, if that hop is an address and so are the proxies to its
  -- right.
  pub resolve-rightmost_untrusted :
      (r : Request) (claimed proxies : List String) (h : String) (a : Addr)
      → trusts_nothing ip res ≡ false
      → is_trusted_peer ip res (peer_addr ip r) ≡ true
      → forwarded_for ip r ≡ claimed ++ h ∷ proxies
      → All IsProxy proxies
      → parse_addr h ≡ some a
      → is_trusted ip res a ≡ false
      → resolve ip (some res) r ≡ show (unmap a)
  unfolding resolve
  resolve-rightmost_untrusted r claimed proxies h a some_prefix peer hops ps e u =
      let order : reverse (claimed ++ h ∷ proxies) ≡ reverse proxies ++ h ∷ reverse claimed =
        simp (reverse-append, reverse-cons, append_assoc) in
      rw (some_prefix, peer, hops, order)
        (walk-untrusted (peer_addr ip r) (reverse proxies) (reverse claimed) h a
          (All-reverse_aux proxies [] ps tt) e u)

  -- A peer that is no trusted proxy is the client itself: X-Forwarded-For is not read.
  pub resolve-untrusted_peer :
      (r : Request)
      → is_trusted_peer ip res (peer_addr ip r) ≡ false
      → resolve ip (some res) r ≡ peer_addr ip r
  unfolding resolve
  resolve-untrusted_peer r peer = ground arith

  -- A hop that is no address ends the walk: the last good hop, or the peer, is the client.
  walk-malformed :
      (client : String) (proxies claimed : List String) (h p : String) (a : Addr)
      → All IsProxy proxies
      → parse_addr p ≡ some a
      → is_trusted ip res a ≡ true
      → parse_addr h ≡ none
      → walk ip res client (proxies ++ p ∷ h ∷ claimed) ≡ show (unmap a)
  unfolding walk
  walk-malformed client [] claimed h p a _ e t m = rw (e, walk) (rw t (rw (m, walk)))
  walk-malformed client (q ∷ qs) claimed h p a ((b, k, u), rest) e t m =
      rw (k, walk) (rw u (walk-malformed (show (unmap b)) qs claimed h p a rest e t m))
