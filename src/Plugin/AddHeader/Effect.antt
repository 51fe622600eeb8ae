-- ===== src/Plugin/AddHeader/Effect.antt =====
-- What add_header of gateway/internal/plugin/add_header.go does to the forwarded request.
use dealer.Base.{◌≡◌, refl, List, [], ◌∷◌, String, str_eq, if◌then◌else◌}
use dealer.Http.Header.{Header, lookup, insert, canonical, lookup-insert}
use dealer.Http.Writer.{put_all}

-- The value that the last of the entries for a header gives it.
abbrev pub last_value : String → List (String × String) → List String → List String
last_value key [] before = before
last_value key ((k, v) ∷ kvs) before =
    last_value key kvs (if str_eq (canonical k) key then v ∷ [] else before)

-- A header that the entries name, in any spelling, has the last of its values alone; every other
-- header is as it was.
pub lookup-put_all :
    (key : String) (kvs : List (String × String)) (h : Header)
    → lookup key (put_all kvs h) ≡ last_value key kvs (lookup key h)
unfolding put_all
lookup-put_all key [] h = refl
lookup-put_all key ((k, v) ∷ kvs) h =
    rw (lookup-put_all key kvs (insert (canonical k) (v ∷ []) h), lookup-insert)
