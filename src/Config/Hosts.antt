-- ===== src/Config/Hosts.antt =====
-- gateway/internal/config/parse.go: Hosts, the distinct host names of the services, sorted. The map
-- `seen` is the list of its keys; sort.Strings is an insertion sort, which gives the one sorted
-- order of distinct texts.
pub mod Listing
pub mod Sorting
use Prim.Native.String.{compare}
use Prim.Native.Nat.{Ordering}
use dealer.Base.{Bool, true, false, List, [], ◌∷◌, String, is_empty, str_eq, elem, if◌then◌else◌}
use dealer.Config.Types.{Config, Service}

abbrev pub text_le : String → String → Bool
text_le s t = elim (compare s t) [ Ordering.gt ↦ false | _ ↦ true ]

-- seen[host] = true
unfoldable pub add_seen : String → List String → List String
add_seen host seen = if elem host seen then seen else host ∷ seen

-- The first loop.
unfoldable pub seen_hosts : {F : Type 0} → List (Service F) → List String → List String
unfolding add_seen
seen_hosts [] seen = seen
seen_hosts (svc ∷ svcs) seen =
    seen_hosts svcs (if is_empty svc.host then seen else add_seen svc.host seen)

unfoldable pub insert_sorted : String → List String → List String
insert_sorted s [] = s ∷ []
insert_sorted s (t ∷ ts) = if text_le s t then s ∷ t ∷ ts else t ∷ insert_sorted s ts

unfoldable pub sort_strings : List String → List String
unfolding insert_sorted
sort_strings [] = []
sort_strings (s ∷ ss) = insert_sorted s (sort_strings ss)

unfoldable pub hosts : {F : Type 0} → Config F → List String
unfolding seen_hosts sort_strings
hosts c = sort_strings (seen_hosts c.services [])
