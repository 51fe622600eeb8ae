-- ===== src/Config/Hosts/Listing.antt =====
-- What `hosts` lists.
use dealer.Base.{
  ◌≡◌, ◌≢◌, refl, ◌∙◌, Bool, true, false, List, [], ◌∷◌, String, is_empty, str_eq, elem, eq_iff,
  if◌then◌else◌, arith,
}
use dealer.Config.Types.{Config, Service}
use dealer.Config.Hosts.{add_seen, seen_hosts, insert_sorted, sort_strings, hosts}

elem-insert_sorted :
    (h s : String) (ts : List String)
    → elem h (insert_sorted s ts) ≡ (if str_eq s h then true else elem h ts)
unfolding insert_sorted
elem-insert_sorted h s [] = refl
elem-insert_sorted h s (t ∷ ts) = ground (arith, elem-insert_sorted h s ts)

elem-sort_strings : (h : String) (ss : List String) → elem h (sort_strings ss) ≡ elem h ss
unfolding sort_strings
elem-sort_strings h [] = refl
elem-sort_strings h (s ∷ ss) =
    ground (arith, elem-sort_strings h ss, elem-insert_sorted h s (sort_strings ss))

-- Some service has the host.
abbrev pub has_service : {F : Type 0} → String → List (Service F) → Bool
has_service h [] = false
has_service h (svc ∷ svcs) = if str_eq svc.host h then true else has_service h svcs

elem-seen_hosts :
    {F : Type 0} (h : String) (svcs : List (Service F)) (seen : List String)
    → h ≢ ""
    → elem h (seen_hosts svcs seen) ≡ (if elem h seen then true else has_service h svcs)
unfolding seen_hosts add_seen
elem-seen_hosts h [] seen n = ground arith
elem-seen_hosts h (svc ∷ svcs) seen n = ground (
  arith,
  elem-seen_hosts h svcs (if is_empty svc.host then seen else add_seen svc.host seen) n,
  eq_iff svc.host "",
  eq_iff svc.host h,
)

-- A text that is not empty is listed exactly if it is the host of some service.
pub elem-hosts :
    {F : Type 0} (c : Config F) (h : String) → h ≢ "" → elem h (hosts c) ≡ has_service h c.services
unfolding hosts
elem-hosts c h n =
    elem-sort_strings h (seen_hosts c.services []) ∙ elem-seen_hosts h c.services [] n

abbrev pub NoRepeats : List String → Type 0
NoRepeats [] = Unit
NoRepeats (s ∷ ss) = (elem s ss ≡ false) × NoRepeats ss

seen_hosts-NoRepeats :
    {F : Type 0} (svcs : List (Service F)) (seen : List String)
    → NoRepeats seen
    → NoRepeats (seen_hosts svcs seen)
unfolding seen_hosts add_seen
seen_hosts-NoRepeats [] seen h = h
seen_hosts-NoRepeats (svc ∷ svcs) seen h =
    seen_hosts-NoRepeats svcs (if is_empty svc.host then seen else add_seen svc.host seen)
      (ground arith)

insert_sorted-NoRepeats :
    (s : String) (ts : List String)
    → elem s ts ≡ false
    → NoRepeats ts
    → NoRepeats (insert_sorted s ts)
unfolding insert_sorted
insert_sorted-NoRepeats s [] n h = (refl, tt)
insert_sorted-NoRepeats s (t ∷ ts) n h =
    ground (arith, insert_sorted-NoRepeats s ts, elem-insert_sorted t s ts, eq_iff s t, eq_iff t s)

sort_strings-NoRepeats : (ss : List String) → NoRepeats ss → NoRepeats (sort_strings ss)
unfolding sort_strings
sort_strings-NoRepeats [] h = tt
sort_strings-NoRepeats (s ∷ ss) h =
    insert_sorted-NoRepeats s (sort_strings ss) (elem-sort_strings s ss ∙ h.0)
      (sort_strings-NoRepeats ss h.1)

-- No host is listed twice.
pub hosts-NoRepeats : {F : Type 0} (c : Config F) → NoRepeats (hosts c)
unfolding hosts
hosts-NoRepeats c =
    sort_strings-NoRepeats (seen_hosts c.services []) (seen_hosts-NoRepeats c.services [] tt)
