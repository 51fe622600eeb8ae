-- ===== src/Gateway/Reloading/Stopping.antt =====
-- The end of the goroutine that watches the configuration file: gateway/gateway.go (Close) with Start
-- of gateway/internal/config/watcher.go.
use dealer.Base.{
  All, ◌≡◌, refl, ◌∙◌, ap, true, some, List, [], ◌∷◌, ◌++◌, map, ℤ, pos, ltb_ℤ, Event, tick, done,
  ticked, Result, ok,
}
use dealer.Config.Hosts.{hosts}
use dealer.Config.Types.{Config}
use dealer.Config.Watcher.{Disk, FileInfo, Watcher, new_watcher, poll_once, start}
use dealer.Config.Watcher.Ticking.{start-cancelled}
use dealer.Gateway.Generations.{Gateway, on_reload}
use dealer.Gateway.Reloading.{begin, poll_all}
use dealer.Gateway.Reloading.Freshness.{
  IsWhole, version_of, in_force, poll_all-Runs, first-Runs, begin_lem, first_gateway,
}

module _ {F E M : Type 0} (content : FileInfo → Result E (Config F))
    (build : Config F → Result E M) where
  poll_all-ticked :
      (found : List (Disk (Config F) E)) (s : Watcher × Gateway M)
      → ticked (λ disk (w, g). poll_once (on_reload build) disk w g) found s
        ≡ poll_all build found s
  unfolding ticked poll_all
  poll_all-ticked [] s = refl
  poll_all-ticked (f ∷ later) s = poll_all-ticked later (poll_once (on_reload build) f s.0 s.1)

  -- With an interval that is positive, the goroutine of the watcher ends as soon as it takes the
  -- cancellation of Close, whatever comes later, and leaves the gateway with the routes and the hosts
  -- of the last version that one of its polls saw and that loads and compiles, or else of the first
  -- one. The conditions on the file: its content is determined by its modification time and its size,
  -- a poll that sees a version loads that version's content, no edit comes between New's two readings
  -- of the file, and no version makes buildMux panic.
  pub start-in_force :
      (interval : ℤ) (info : FileInfo) (v : Config F × M) (found : List (Disk (Config F) E))
      (later : List (Event (Disk (Config F) E)))
      → ltb_ℤ (pos 0) interval ≡ true
      → version_of content build info ≡ some v
      → All (IsWhole content build) found
      → (first : Watcher × Gateway M) × (last : Watcher × Gateway M) × (begin build
            (content info)
            (some info)
          ≡ ok first)
        × (start (on_reload build) interval (map tick found ++ done ∷ later) first
            ≡ some (last, true))
        × (last.1.mux ≡ (in_force content build v found).1)
        × (last.1.hosts ≡ hosts (in_force content build v found).0)
  start-in_force interval info v found later positive h whole =
      let w = new_watcher (some info) in
      let g = first_gateway content build v in
      let runs =
        poll_all-Runs content build v found (w, g) whole (first-Runs content build info v h) in
      (
        (w, g),
        poll_all build found (w, g),
        begin_lem content build info (some info) v h,
        start-cancelled (on_reload build) interval found later w g positive
            ∙ ap (λ last. some (last, true)) (poll_all-ticked found (w, g)),
        runs.routes,
        runs.known,
      )
