-- ===== src/Config/HostName.antt =====
-- The pattern of host names of gateway/internal/config/parse.go,
-- `^[a-z0-9]([a-z0-9-]*[a-z0-9])?(\.[a-z0-9]([a-z0-9-]*[a-z0-9])?)*$`, as the automaton that
-- recognises it, over the code points of a text.
use dealer.Base.{
  ℕ, Bool, true, false, ◌&&◌, ◌||◌, List, [], ◌∷◌, String, leb, ◌==◌, if◌then◌else◌, codes,
}

abbrev pub is_alnum : ℕ → Bool
is_alnum c = (leb b'a' c && leb c b'z') || (leb b'0' c && leb c b'9')

-- Before a label's first character, behind a letter or digit, and behind a hyphen.
pub data Place : Type 0 where
  label_start in_label after_hyphen : Place

abbrev pub may_end : Place → Bool
may_end in_label = true
may_end label_start = false
may_end after_hyphen = false

-- The place behind a character, or none where the pattern refuses it.
abbrev pub next_hyphen : Place → Bool
next_hyphen label_start = false
next_hyphen in_label = true
next_hyphen after_hyphen = true

unfoldable pub accepts : Place → List ℕ → Bool
accepts p [] = may_end p
accepts p (c ∷ cs) =
    if is_alnum c
    then accepts in_label cs
    else if c == b'-' && next_hyphen p
    then accepts after_hyphen cs
    else if c == b'.' && may_end p
    then accepts label_start cs
    else false

unfoldable pub host_pattern_matches : String → Bool
unfolding accepts
host_pattern_matches host = accepts label_start (codes host)
