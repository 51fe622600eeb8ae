-- ===== src/Plugin/Registry/Building.antt =====
-- What plugin.Build of gateway/internal/plugin/registry.go makes of a name.
use dealer.Base.{
  ◌≡◌, refl, sym, subst, All, inl, inr, Bool, false, List, [], ◌∷◌, String, str_eq, eq_iff, elem,
  arith, Result, ok, err, Bool-cases,
}
use dealer.Config.Types.{Entries}
use dealer.Plugin.Values.{PluginError, Float, unknown_plugin}
use dealer.Plugin.Registry.{
  Built, add_header, request_size_limiting, jwt_auth, cors, response_headers, rate_limiting,
  name_of, built, builtins, factory_of, made, build, Factory,
}

abbrev pub known_plugins : List String
known_plugins =
    "rate_limiting" ∷ "add_header" ∷ "http_log" ∷ "request_size_limiting" ∷ "jwt_auth" ∷ "cors"
    ∷ "response_headers" ∷ []

module _ (fl : Float) (getenv : String → String) (shared : Bool) where
  open fl use {F}

  -- A factory that makes plugins of its name.
  abbrev pub IsNamed : String × Factory fl getenv shared → Type 0
  IsNamed b = (c : Entries F) (q : Built fl) → b.1 c ≡ ok q → name_of q ≡ b.0

  built_name :
      {A : Type 0} (f : A → Built fl) (n : String) (m : Result PluginError A) (q : Built fl)
      → ((a : A) → name_of (f a) ≡ n)
      → built f m ≡ ok q
      → name_of q ≡ n
  built_name f n (ok a) q g e = let same : f a ≡ q = cc in subst (λ b. name_of b ≡ n) same (g a)
  built_name f n (err x) q g e = cc

  factory_name :
      (fs : List (String × Factory fl getenv shared)) (name : String) (cfg : Entries F)
      (p : Built fl)
      → All IsNamed fs
      → made fl getenv shared (factory_of fl getenv shared fs name) name cfg ≡ ok p
      → name_of p ≡ name
  unfolding factory_of
  factory_name [] name cfg p a e = cc
  factory_name ((n, f) ∷ fs) name cfg p (one, rest) e = elim (Bool-cases (str_eq n name)) [
    | inl same ↦
        subst (λ m. name_of p ≡ m) ((eq_iff n name).0 same) (one cfg p (rw (same, factory_of) at e))
    | inr other ↦ factory_name fs name cfg p rest (rw (other, factory_of) at e)
  ]

  -- A plugin that is built has the name that was asked for.
  pub build-name_of :
      (name : String) (cfg : Entries F) (id : String) (p : Built fl)
      → build fl getenv shared name cfg id ≡ ok p
      → name_of p ≡ name
  unfolding build
  build-name_of name cfg id p h = elim (Bool-cases (str_eq name "rate_limiting")) [
    | inl rate ↦
        subst (λ n. name_of p ≡ n) (sym ((eq_iff name "rate_limiting").0 rate))
          (built_name rate_limiting "rate_limiting" _ p (λ a. refl) (rw (rate, build) at h))
    | inr other ↦ factory_name (builtins fl getenv shared) name cfg p named (rw (other, build) at h)
  ]
    where
      named : All IsNamed (builtins fl getenv shared)
      named = (
        (λ c q. built_name add_header "add_header" _ q (λ a. refl)),
        (
          (λ c q e. ground arith),
          (
            (λ c q. built_name request_size_limiting "request_size_limiting" _ q (λ a. refl)),
            (
              (λ c q. built_name jwt_auth "jwt_auth" _ q (λ a. refl)),
              (
                (λ c q. built_name cors "cors" _ q (λ a. refl)),
                ((λ c q. built_name response_headers "response_headers" _ q (λ a. refl)), tt),
              ),
            ),
          ),
        ),
      )

  -- A name that is no built-in plugin's is refused, whatever its configuration.
  pub build_unknown :
      (name : String) (cfg : Entries F) (id : String)
      → elem name known_plugins ≡ false
      → build fl getenv shared name cfg id ≡ err (unknown_plugin name)
  unfolding build
  build_unknown name cfg id h =
      ground (arith, eq_iff "rate_limiting" name, eq_iff name "rate_limiting")
