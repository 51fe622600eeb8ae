-- ===== src/Router/Patterns.antt =====
-- Which patterns gateway/internal/router/router.go registers.
use dealer.Base.{
  none, some, subst, Bool-cases, Option-cases, ◌≡◌, refl, ◌⊎◌, inl, inr, ap, sym, ◌∙◌, Bool, true,
  false, ◌&&◌, not, List, [], ◌∷◌, ◌++◌, map, String, str_eq, eq_iff, elem, append, arith,
  if◌then◌else◌, Result, ok, Result-cases,
}
use dealer.Config.Types.{Service}
use dealer.Router.{
  has_cors_plugin, with_method, handle_methods, handle_service, patterns, register, build_from,
  build,
}
use mathlib.Core.List.{append_assoc, append-nil}

patterns-append :
    {H : Type 0} (rs ss : List (String × H)) → patterns (rs ++ ss) ≡ patterns rs ++ patterns ss
patterns-append [] ss = refl
patterns-append ((p, h) ∷ rs) ss = ap (λ l. p ∷ l) (patterns-append rs ss)

elem-append :
    (p : String) (xs ys : List String) → elem p (xs ++ ys) ≡ (if elem p xs then true else elem p ys)
elem-append p [] ys = refl
elem-append p (x ∷ xs) ys = ground (arith, elem-append p xs ys)

module _ {H : Type 0} (pattern : String) (h : H) where
  handle_methods-patterns :
      (ms : List String) (seen : Bool)
      → patterns (handle_methods pattern h ms seen).0 ≡ map (λ m. with_method m pattern) ms
  unfolding handle_methods
  handle_methods-patterns [] seen = refl
  handle_methods-patterns (m ∷ ms) seen =
      ap (λ l. with_method m pattern ∷ l)
        (handle_methods-patterns ms (if str_eq m "OPTIONS" then true else seen))

  handle_methods-options :
      (ms : List String) (seen : Bool)
      → (handle_methods pattern h ms seen).1 ≡ (if seen then true else elem "OPTIONS" ms)
  unfolding handle_methods
  handle_methods-options [] seen = ground arith
  handle_methods-options (m ∷ ms) seen = ground (
    arith,
    handle_methods-options ms (if str_eq m "OPTIONS" then true else seen),
    eq_iff m "OPTIONS",
  )

-- The patterns that a service is meant to have: its host and path, for every method without a
-- list of methods, and else for each that is listed, with OPTIONS behind them where a cors plugin
-- needs it and it is not listed.
abbrev pub service_patterns : {F : Type 0} → Service F → List String
service_patterns svc = elim svc.methods [
  | [] ↦ append svc.host svc.path ∷ []
  | m ∷ ms ↦
      map (λ k. with_method k (append svc.host svc.path)) (m ∷ ms)
      ++ (if not (elem "OPTIONS" (m ∷ ms)) && has_cors_plugin svc.plugins
          then with_method "OPTIONS" (append svc.host svc.path) ∷ []
          else [])
]

list_cases {ℓ} : {A : Type ℓ} (xs : List A) → (xs ≡ []) ⊎ ((y : A) × (ys : List A) × (xs ≡ y ∷ ys))
list_cases [] = inl refl
list_cases (y ∷ ys) = inr (y, ys, refl)

abbrev pub flat_map {ℓ κ} : {A : Type ℓ} {B : Type κ} → (A → List B) → List A → List B
flat_map f [] = []
flat_map f (x ∷ xs) = f x ++ flat_map f xs

handle_listed :
    {F H : Type 0} (svc : Service F) (h : H) (m : String) (ms : List String)
    → svc.methods ≡ m ∷ ms
    → patterns (handle_service svc h) ≡ service_patterns svc
unfolding handle_service
handle_listed svc h m ms e =
    let pattern : String = append svc.host svc.path in
    rw (e, handle_service)
      (patterns-append (handle_methods pattern h (m ∷ ms) false).0 _
        ∙ ground (
          arith,
          handle_methods-patterns pattern h ms (if str_eq m "OPTIONS" then true else false),
          handle_methods-options pattern h ms (if str_eq m "OPTIONS" then true else false),
        ))

-- A preflight reaches the plugins of a service that has a cors plugin: OPTIONS is registered for
-- it, listed or not, or its pattern is for every method.
pub handle_service-patterns :
    {F H : Type 0} (svc : Service F) (h : H)
    → patterns (handle_service svc h) ≡ service_patterns svc
unfolding handle_service
handle_service-patterns svc h = elim (list_cases svc.methods) [
  | inl none_listed ↦ rw (none_listed, handle_service)
  | inr (m, ms, e) ↦ handle_listed svc h m ms e
]

module _ (accepts : List String → String → Bool) where
  -- Each of the patterns is one that the mux takes after those before it.
  abbrev pub AreAccepted : List String → List String → Type 0
  AreAccepted before [] = Unit
  AreAccepted before (p ∷ ps) = (accepts before p ≡ true) × AreAccepted (before ++ p ∷ []) ps

  append-AreAccepted :
      (before ps qs : List String)
      → AreAccepted before ps
      → AreAccepted (before ++ ps) qs
      → AreAccepted before (ps ++ qs)
  append-AreAccepted before [] qs _ h = subst (λ b. AreAccepted b qs) (append-nil before) h
  append-AreAccepted before (p ∷ ps) qs (first, rest) h = (
    first,
    append-AreAccepted (before ++ p ∷ []) ps qs rest
        (subst (λ b. AreAccepted b qs) (sym (append_assoc before (p ∷ []) ps)) h),
  )

  -- A mux has these patterns more than before, and took each of them.
  Takes : {H : Type 0} → List (String × H) → List String → List (String × H) → Type 0
  Takes mux ps more = (patterns more ≡ patterns mux ++ ps) × AreAccepted (patterns mux) ps

  register-Takes :
      {H : Type 0} (mux calls more : List (String × H))
      → register accepts mux calls ≡ some more
      → Takes mux (patterns calls) more
  unfolding register Takes
  register-Takes mux [] more e =
      let same : mux ≡ more = cc in (ap patterns (sym same) ∙ sym (append-nil (patterns mux)), tt)
  register-Takes mux ((p, h) ∷ calls) more e = elim (Bool-cases (accepts (patterns mux) p)) [
    | inr refused ↦ let bad : none ≡ some more = (rw refused at e) in cc
    | inl taken ↦
        let (ps, rest) = register-Takes (mux ++ (p, h) ∷ []) calls more (rw taken at e) in
        let one = patterns-append mux ((p, h) ∷ []) in
        (
          ps
              ∙ ap (λ l. l ++ patterns calls) one
              ∙ append_assoc (patterns mux) (p ∷ []) (patterns calls),
          (taken, subst (λ b. AreAccepted b (patterns calls)) one rest),
        )
  ]

  build_from-Takes :
      {F E H : Type 0} (handler_for : Service F → Result E H) (mux : List (String × H))
      (svcs : List (Service F)) (routes : List (String × H))
      → build_from accepts handler_for mux svcs ≡ some (ok routes)
      → Takes mux (flat_map service_patterns svcs) routes
  unfolding build_from Takes
  build_from-Takes handler_for mux [] routes e =
      let same : mux ≡ routes = cc in (ap patterns (sym same) ∙ sym (append-nil (patterns mux)), tt)
  build_from-Takes handler_for mux (svc ∷ svcs) routes e = elim (Result-cases (handler_for svc)) [
    | inr (bad, f) ↦ ground arith
    | inl (h, f) ↦ elim (Option-cases (register accepts mux (handle_service svc h))) [
      | inl panics ↦ let bad : none ≡ some (ok routes) = (rw (f, panics, build_from) at e) in cc
      | inr (more, made) ↦
          let first : Takes mux (service_patterns svc) more =
            subst (λ ps. Takes mux ps more) (handle_service-patterns svc h)
              (register-Takes mux (handle_service svc h) more made) in
          let later =
            build_from-Takes handler_for more svcs routes (rw (f, made, build_from) at e) in
          let rest = flat_map service_patterns svcs in
          (
            later.0
                ∙ ap (λ l. l ++ rest) first.0
                ∙ append_assoc (patterns mux) (service_patterns svc) rest,
            append-AreAccepted (patterns mux) (service_patterns svc) rest first.1
                (subst (λ b. AreAccepted b rest) first.0 later.1),
          )
    ]
  ]

  -- If Build returns a mux, so that every handler can be made and mux.Handle never panics, the
  -- patterns registered are those of the services, in their order: for each the pattern for every
  -- method, or one for each method that is listed, and OPTIONS behind them for a service with a cors
  -- plugin that does not list it. The mux took each of them after those before it.
  pub build-patterns :
      {F E H : Type 0} (handler_for : Service F → Result E H) (svcs : List (Service F))
      (routes : List (String × H))
      → build accepts handler_for svcs ≡ some (ok routes)
      → (patterns routes ≡ flat_map service_patterns svcs) × AreAccepted [] (patterns routes)
  unfolding build Takes
  build-patterns handler_for svcs routes e =
      let (ps, accepted) = build_from-Takes handler_for [] svcs routes e in
      (ps, subst (AreAccepted []) (sym ps) accepted)
