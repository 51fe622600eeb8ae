-- ===== src/Router.antt =====
-- gateway/internal/router/router.go. http.ServeMux is a parameter: `accepts` says of the patterns that
-- a mux has, and of one more, whether mux.Handle takes it; otherwise it panics, which is none. A mux
-- is its patterns with their handlers, in the order in which they were registered.
pub mod Patterns
use dealer.Base.{
  Bool, true, false, ◌&&◌, not, Option, none, some, List, [], ◌∷◌, ◌++◌, String, str_eq, append,
  if◌then◌else◌, Result, ok, err, ◌>>=◌,
}
use dealer.Config.Types.{Config, Service, PluginConfig}

-- hasCORSPlugin
unfoldable pub has_cors_plugin : {F : Type 0} → List (PluginConfig F) → Bool
has_cors_plugin [] = false
has_cors_plugin (p ∷ ps) = if str_eq p.name "cors" then true else has_cors_plugin ps

abbrev pub with_method : String → String → String
with_method method pattern = append method (append " " pattern)

module _ {H : Type 0} where
  -- The loop over a service's methods, with `hasOptions`.
  unfoldable pub handle_methods : String → H → List String → Bool → List (String × H) × Bool
  handle_methods pattern h [] has_options = ([], has_options)
  handle_methods pattern h (m ∷ ms) has_options =
      let rest = handle_methods pattern h ms (if str_eq m "OPTIONS" then true else has_options) in
      ((with_method m pattern, h) ∷ rest.0, rest.1)

module _ {F H : Type 0} where
  -- The calls of mux.Handle for one service.
  unfoldable pub handle_service : Service F → H → List (String × H)
  unfolding handle_methods has_cors_plugin
  handle_service svc h =
      let pattern = append svc.host svc.path in
      elim svc.methods [
        | [] ↦ (pattern, h) ∷ []
        | m ∷ ms ↦
            let registered = handle_methods pattern h (m ∷ ms) false in
            registered.0
            ++ (if not registered.1 && has_cors_plugin svc.plugins
                then (with_method "OPTIONS" pattern, h) ∷ []
                else [])
      ]

abbrev pub patterns : {H : Type 0} → List (String × H) → List String
patterns [] = []
patterns ((p, h) ∷ rs) = p ∷ patterns rs

module _ {H : Type 0} (accepts : List String → String → Bool) where
  -- Calls of mux.Handle, one after the other.
  unfoldable pub register : List (String × H) → List (String × H) → Option (List (String × H))
  register mux [] = some mux
  register mux ((p, h) ∷ calls) =
      let rest = register (mux ++ (p, h) ∷ []) calls in
      if accepts (patterns mux) p then rest else none

module _ {F E H : Type 0} (accepts : List String → String → Bool) where
  -- The loop over the services.
  unfoldable pub build_from :
      (Service F → Result E H)
      → List (String × H)
      → List (Service F)
      → Option (Result (String × E) (List (String × H)))
  unfolding handle_service register
  build_from handler_for mux [] = some (ok mux)
  build_from handler_for mux (svc ∷ svcs) = elim (handler_for svc) [
    | err e ↦ some (err (svc.name, e))
    | ok h ↦ elim (register accepts mux (handle_service svc h)) [
      | none ↦ none
      | some more ↦ build_from handler_for more svcs
    ]
  ]

  -- Build: the error is that of the first service whose handler cannot be made, with its name.
  unfoldable pub build :
      (Service F → Result E H) → List (Service F) → Option (Result (String × E) (List (String × H)))
  unfolding build_from
  build handler_for svcs = build_from handler_for [] svcs
