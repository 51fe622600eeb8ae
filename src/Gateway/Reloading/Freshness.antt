-- ===== src/Gateway/Reloading/Freshness.antt =====
-- Which version of its configuration file a gateway of gateway/gateway.go runs.
use dealer.Base.{
  All, ◌≡◌, refl, sym, ap, ◌∙◌, subst, inl, inr, Bool, true, Option, none, some, List, [], ◌∷◌,
  String, arith, elem, to_lower, trim_suffix, Result, ok, err, Bool-cases, Option-cases,
  Result-cases,
}
use dealer.ClientIp.{Resolver}
use dealer.Config.Hosts.{hosts}
use dealer.Config.Types.{Config}
use dealer.Config.Watcher.{Disk, FileInfo, Watcher, new_watcher, is_unchanged, poll_once}
use dealer.Gateway.Generations.{Gateway, store_hosts, start_generation, has_host, start, on_reload}
use dealer.Gateway.Pipeline.{Outside, World, serve}
use dealer.Gateway.Reloading.{Routes, begin, poll_all, serve_http}
use dealer.Http.Request.{Request}
use dealer.Plugin.Contract.{Env, Handler}
use dealer.Plugin.Values.{Float}

module _ {F X E M : Type 0} (content : FileInfo → Result X (Config F))
    (build : Config F → Result E M) where
  -- A version that loads and compiles: its configuration and its routes.
  abbrev pub Version : Type 0
  Version = Config F × M

  abbrev built : Config F → Result E M → Option Version
  built cfg (err e) = none
  built cfg (ok m) = some (cfg, m)

  abbrev loaded : Result X (Config F) → Option Version
  loaded (err e) = none
  loaded (ok cfg) = built cfg (build cfg)

  abbrev pub version_of : FileInfo → Option Version
  version_of info = loaded (content info)

  abbrev or_else : Version → Option Version → Version
  or_else v none = v
  or_else v (some v') = v'

  abbrev latest : Version → Option FileInfo → Version
  latest v none = v
  latest v (some info) = or_else v (version_of info)

  -- The last version seen that loads and compiles.
  unfoldable pub in_force : Version → List (Disk (Config F) X) → Version
  in_force v [] = v
  in_force v (found ∷ later) = in_force (latest v found.stat) later

  -- A poll loads the content of the version that it saw.
  abbrev pub IsWhole : Disk (Config F) X → Type 0
  IsWhole found = (info : FileInfo) → found.stat ≡ some info → found.load ≡ content info

  -- The watcher knows the version that the gateway runs.
  pub record Runs (v : Version) (s : Watcher × Gateway M) : Type 0 where
    pub recorded :
        version_of (record { mod_time = s.0.last_mod_time; size = s.0.last_size }) ≡ some v
    pub routes : s.1.mux ≡ v.1
    pub known : s.1.hosts ≡ hosts v.0

  unchanged_info :
      (w : Watcher) (info : FileInfo)
      → is_unchanged w info ≡ true
      → record { mod_time = w.last_mod_time; size = w.last_size } ≡ info
  unchanged_info w info h = ground arith

  poll_once-Runs :
      (v : Version) (info : FileInfo) (found : Disk (Config F) X) (s : Watcher × Gateway M)
      → found.stat ≡ some info
      → found.load ≡ content info
      → Runs v s
      → Runs (or_else v (version_of info)) (poll_once (on_reload build) found s.0 s.1)
  unfolding poll_once on_reload store_hosts start_generation
  poll_once-Runs v info found s seen whole h =
      rw (seen, whole)
        (elim (Bool-cases (is_unchanged s.0 info)) [
          | inl same ↦
              let known_version = sym (ap version_of (unchanged_info s.0 info same)) ∙ h.recorded in
              rw (same, known_version) h
          | inr changed ↦ rw changed (elim (Result-cases (content info)) [
            | inr (e, bad) ↦ rw (bad, loaded) h
            | inl (cfg, good) ↦ elim (Result-cases (build cfg)) [
              | inr (e, bad) ↦ rw (good, bad, on_reload) h
              | inl (m, made) ↦
                  rw (good, made, on_reload)
                    (record {
                      recorded = ap loaded good ∙ ap (built cfg) made;
                      routes = refl;
                      known = refl;
                    })
            ]
          ])
        ])

  poll-Runs :
      (v : Version) (found : Disk (Config F) X) (s : Watcher × Gateway M)
      → IsWhole found
      → Runs v s
      → Runs (latest v found.stat) (poll_once (on_reload build) found s.0 s.1)
  poll-Runs v found s whole h =
      let after = poll_once (on_reload build) found s.0 s.1 in
      elim (Option-cases found.stat) [
        | inl missing ↦
            subst (λ o. Runs (latest v o) after) (sym missing) (unfold poll_once in rw missing h)
        | inr (info, seen) ↦
            subst (λ o. Runs (latest v o) after) (sym seen)
              (poll_once-Runs v info found s seen (whole info seen) h)
      ]

  pub poll_all-Runs :
      (v : Version) (found : List (Disk (Config F) X)) (s : Watcher × Gateway M)
      → All IsWhole found
      → Runs v s
      → Runs (in_force v found) (poll_all build found s)
  unfolding poll_all in_force
  poll_all-Runs v [] s whole h = h
  poll_all-Runs v (f ∷ later) s whole h =
      poll_all-Runs (latest v f.stat) later (poll_once (on_reload build) f s.0 s.1) whole.1
        (poll-Runs v f s whole.0 h)

  abbrev pub first_gateway : Version → Gateway M
  first_gateway v = record { mux = v.1; hosts = hosts v.0; generation = 0; running = 0 ∷ [] }

  pub first-Runs :
      (info : FileInfo) (v : Version)
      → version_of info ≡ some v
      → Runs v (new_watcher (some info), first_gateway v)
  unfolding new_watcher
  first-Runs info v h = record { recorded = h; routes = refl; known = refl }

  -- A poll that finds the version that the watcher knows changes nothing, whatever would load.
  poll_all-known :
      (info : FileInfo) (g : Gateway M) (found : List (Disk (Config F) X))
      → All (λ f. f.stat ≡ some info) found
      → poll_all build found (new_watcher (some info), g) ≡ (new_watcher (some info), g)
  unfolding poll_all poll_once new_watcher
  poll_all-known info g [] h = refl
  poll_all-known info g (f ∷ later) h = rw h.0 (ground (arith, poll_all-known info g later h.1))

module _ {F E M : Type 0} (content : FileInfo → Result E (Config F))
    (build : Config F → Result E M) where
  pub begin_lem :
      (info : FileInfo) (watched : Option FileInfo) (v : Config F × M)
      → version_of content build info ≡ some v
      → begin build (content info) watched ≡ ok (new_watcher watched, first_gateway content build v)
  unfolding begin store_hosts
  begin_lem info watched v h = elim (Result-cases (content info)) [
    | inr (e, bad) ↦ cc (ap (loaded content build) bad)
    | inl (cfg, good) ↦ elim (Result-cases (build cfg)) [
      | inr (e, bad) ↦ cc (ap (loaded content build) good, ap (built content build cfg) bad)
      | inl (m, made) ↦
          let eq : (cfg, m) ≡ v =
            cc (ap (loaded content build) good, ap (built content build cfg) made) in
          rw (good, made, start)
            (ap (λ v. ok (new_watcher watched, first_gateway content build v)) eq)
    ]
  ]

  -- A version that is put in place between New's reading of the file and the watcher's is missed: as
  -- long as the file's modification time and size stay as they are, no poll applies it, and the
  -- gateway runs the old routes.
  pub begin-missed :
      (old new : FileInfo) (v : Config F × M) (found : List (Disk (Config F) E))
      → version_of content build old ≡ some v
      → All (λ f. f.stat ≡ some new) found
      → (s : Watcher × Gateway M) × (begin build (content old) (some new) ≡ ok s)
        × ((poll_all build found s).1.mux ≡ v.1)
  begin-missed old new v found h same =
      let g = first_gateway content build v in
      (
        (new_watcher (some new), g),
        begin_lem old (some new) v h,
        ap (λ s. s.1.mux) (poll_all-known content build new g found same),
      )

module _ (fl : Float) {D W E : Type 0} (out : Outside fl.F D W)
    (not_routed : Handler (World fl.F D W)) (proxies : Option (Resolver out.ip)) (trust : Bool)
    (content : FileInfo → Result E (Config fl.F)) (build : Config fl.F → Result E (Routes fl)) where
  -- A gateway that starts with a version of its file that loads and compiles serves every request,
  -- in any state of its services and after any polls, by the routes of the last version that a poll
  -- saw and that loads and compiles, or else of the first one, and has the hosts of the same version,
  -- although polls that find the file unchanged are skipped. A poll may fail to read the file, or
  -- find an edit that does not load or compile. The conditions: the content of the file is determined
  -- by its modification time and its size, a poll that sees a version loads that version's content,
  -- no edit comes between New's two readings of the file, and no version makes buildMux or a prober
  -- panic.
  pub poll_all-in_force :
      (info : FileInfo) (v : Config fl.F × Routes fl) (found : List (Disk (Config fl.F) E))
      → version_of content build info ≡ some v
      → All (IsWhole content build) found
      → let force = in_force content build v found in
        (s : Watcher × Gateway (Routes fl)) × (begin build (content info) (some info) ≡ ok s)
        × ((r : Request) (e : Env (World fl.F D W))
            → serve_http fl out not_routed proxies trust (poll_all build found s).1 r e
              ≡ serve fl out force.1 not_routed proxies trust r e)
        × ((host : String)
            → has_host (poll_all build found s).1 host
              ≡ elem (trim_suffix (to_lower host) ".") (hosts force.0))
  unfolding serve_http has_host
  poll_all-in_force info v found h whole =
      let first : Watcher × Gateway (Routes fl) =
        (new_watcher (some info), first_gateway content build v) in
      let runs =
        poll_all-Runs content build v found first whole (first-Runs content build info v h) in
      (
        first,
        begin_lem content build info (some info) v h,
        λ r e. ap (λ m. serve fl out m not_routed proxies trust r e) runs.routes,
        λ host. ap (elem (trim_suffix (to_lower host) ".")) runs.known,
      )
