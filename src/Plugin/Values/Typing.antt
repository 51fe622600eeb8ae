-- ===== src/Plugin/Values/Typing.antt =====
-- The types that the plugins give to the values of their YAML configuration: which values have them,
-- and which Go values these stand for.
use dealer.Base.{◌≡◌, refl, subst, Option, none, some, List, [], ◌∷◌, String, ok, ℤ, >>=-eq-ok}
use dealer.Config.Types.{Value, Values, nil, int, int64, float, text, list, end, item}
use dealer.Plugin.Values.{Float, strings_of, list_of, to_int64}

module _ {F : Type 0} where
  -- A list of texts.
  pub data Texts : Values F → List String → Type 0 where
    no_text : Texts end []
    one_text :
        (s : String) {vs : Values F} {ss : List String}
        → Texts vs ss
        → Texts (item (text s) vs) (s ∷ ss)

  -- A field of the type []string: one that is missing or null is empty.
  pub data Slice : Option (Value F) → List String → Type 0 where
    missing : Slice none []
    null : Slice (some nil) []
    listed : {vs : Values F} {ss : List String} → Texts vs ss → Slice (some (list vs)) ss

  pub strings_of-Texts :
      (key : String) (vs : Values F) (ss : List String) → strings_of key vs ≡ ok ss → Texts vs ss
  unfolding strings_of
  strings_of-Texts key end ss h = let e : [] ≡ ss = cc in subst (Texts end) e no_text
  strings_of-Texts key (item (text s) vs) ss h =
      let (rest, made, eq) = >>=-eq-ok (strings_of key vs) _ h in
      let e : s ∷ rest ≡ ss = cc in
      subst (Texts (item (text s) vs)) e (one_text s (strings_of-Texts key vs rest made))
  strings_of-Texts key (item nil vs) ss h = cc
  strings_of-Texts key (item v vs) ss h = cc

  pub Texts-strings_of :
      (key : String) {vs : Values F} {ss : List String} → Texts vs ss → strings_of key vs ≡ ok ss
  unfolding strings_of
  Texts-strings_of key no_text = refl
  Texts-strings_of key (one_text s t) = rw (Texts-strings_of key t) refl

  pub list_of-Slice :
      (key : String) (v : Option (Value F)) (ss : List String) → list_of key v ≡ ok ss → Slice v ss
  unfolding list_of
  list_of-Slice key none ss h = let e : [] ≡ ss = cc in subst (Slice none) e missing
  list_of-Slice key (some nil) ss h = let e : [] ≡ ss = cc in subst (Slice (some nil)) e null
  list_of-Slice key (some (list vs)) ss h = listed (strings_of-Texts key vs ss h)
  list_of-Slice key (some v) ss h = cc

  pub Slice-list_of :
      (key : String) {v : Option (Value F)} {ss : List String} → Slice v ss → list_of key v ≡ ok ss
  unfolding list_of
  Slice-list_of key missing = refl
  Slice-list_of key null = refl
  Slice-list_of key (listed t) = Texts-strings_of key t

module _ (fl : Float) where
  open fl use {F, to_int}

  -- A field of the type int64: a number that is not one loses its fraction.
  pub data Whole : Value F → ℤ → Type 0 where
    whole : (n : ℤ) → Whole (int n) n
    whole64 : (n : ℤ) → Whole (int64 n) n
    truncated : (x : F) → Whole (float x) (to_int x)

  pub to_int64-Whole :
      (field : String) (v : Value F) (n : ℤ) → to_int64 fl field v ≡ ok n → Whole v n
  unfolding to_int64
  to_int64-Whole field (int m) n h = let e : m ≡ n = cc in subst (Whole (int m)) e (whole m)
  to_int64-Whole field (int64 m) n h = let e : m ≡ n = cc in subst (Whole (int64 m)) e (whole64 m)
  to_int64-Whole field (float x) n h =
      let e : to_int x ≡ n = cc in subst (Whole (float x)) e (truncated x)
  to_int64-Whole field v n h = cc

  pub Whole-to_int64 :
      (field : String) {v : Value F} {n : ℤ} → Whole v n → to_int64 fl field v ≡ ok n
  unfolding to_int64
  Whole-to_int64 field (whole n) = refl
  Whole-to_int64 field (whole64 n) = refl
  Whole-to_int64 field (truncated x) = refl
