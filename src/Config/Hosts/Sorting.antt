-- ===== src/Config/Hosts/Sorting.antt =====
-- The order of what `hosts` lists.
use Prim.Native.Char.{code}
use Prim.Native.Nat.{Ordering, compare as compare_ℕ}
use Prim.Native.String.compare
use dealer.Base.{ℕ, ◌≡◌, ◌≢◌, elem, true, false, List, [], ◌∷◌, String, arith, Bool-cases, inl, inr}
use dealer.Config.Types.{Config}
use dealer.Config.Hosts.Listing.{has_service, NoRepeats, elem-hosts, hosts-NoRepeats}
use dealer.Config.Hosts.{text_le, insert_sorted, sort_strings, seen_hosts, hosts}

swap : Ordering → Ordering
swap Ordering.lt = Ordering.gt
swap Ordering.eq = Ordering.eq
swap Ordering.gt = Ordering.lt

compare_swap : (a b : ℕ) → compare_ℕ b a ≡ swap (compare_ℕ a b)
unfolding swap
compare_swap a b = ground arith

text_le_total : (s t : String) → text_le s t ≡ false → text_le t s ≡ true
unfolding swap
text_le_total String.[] String.[] h = ground (arith, compare.nil-nil)
text_le_total String.[] (String.◌∷◌ d t) h = ground (arith, compare.nil-cons d t)
text_le_total (String.◌∷◌ c s) String.[] h = ground (arith, compare.nil-cons c s)
text_le_total (String.◌∷◌ c s) (String.◌∷◌ d t) h = ground (
  arith,
  compare.cons-cons c d s t,
  compare.cons-cons d c t s,
  text_le_total s t,
  compare_swap (code c) (code d),
)

-- Each text is at most the one behind it.
abbrev pub IsSorted : List String → Type 0
IsSorted [] = Unit
IsSorted (s ∷ []) = Unit
IsSorted (s ∷ t ∷ ts) = (text_le s t ≡ true) × IsSorted (t ∷ ts)

insert_sorted-IsSorted :
    (s : String) (ts : List String) → IsSorted ts → IsSorted (insert_sorted s ts)
unfolding insert_sorted
insert_sorted-IsSorted s [] h = tt
insert_sorted-IsSorted s (t ∷ []) h = elim (Bool-cases (text_le s t)) [
  | inl le ↦ rw le (le, tt)
  | inr gt ↦ rw gt (text_le_total s t gt, tt)
]
insert_sorted-IsSorted s (t ∷ u ∷ us) h = elim (Bool-cases (text_le s t)) [
  | inl le ↦ rw le (le, h)
  | inr gt ↦ elim (Bool-cases (text_le s u)) [
    | inl le ↦ rw (gt, le) (text_le_total s t gt, (le, h.1))
    | inr gt' ↦
        rw (gt, gt') (h.0, rw (gt', insert_sorted) at (insert_sorted-IsSorted s (u ∷ us) h.1))
  ]
]

sort_strings-IsSorted : (ss : List String) → IsSorted (sort_strings ss)
unfolding sort_strings
sort_strings-IsSorted [] = tt
sort_strings-IsSorted (s ∷ ss) =
    insert_sorted-IsSorted s (sort_strings ss) (sort_strings-IsSorted ss)

-- The hosts are sorted and none is listed twice, and a text that is not empty is listed exactly if
-- it is the host of some service.
pub hosts_lem :
    {F : Type 0} (c : Config F) (h : String)
    → h ≢ ""
    → IsSorted (hosts c) × NoRepeats (hosts c) × (elem h (hosts c) ≡ has_service h c.services)
unfolding hosts
hosts_lem c h n =
    (sort_strings-IsSorted (seen_hosts c.services []), hosts-NoRepeats c, elem-hosts c h n)
