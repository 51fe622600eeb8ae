-- ===== src/Gateway/Reloading/Examples.antt =====
-- A running gateway whose configuration file is edited.
use dealer.Base.{
  All, ap, ◌++◌, map, pos, tick, done, ℕ, ◌≡◌, refl, ◌==◌, true, false, none, some, List, [], ◌∷◌,
  String, elem, to_lower, trim_suffix, if◌then◌else◌, Result, ok, err,
}
use dealer.Config.Hosts.{hosts}
use dealer.Config.Types.{Config, Service}
use dealer.Config.Watcher.{Disk, FileInfo, Watcher, start}
use dealer.Gateway.Generations.{Gateway, has_host, on_reload}
use dealer.Gateway.Pipeline.{serve}
use dealer.Gateway.Pipeline.Sample.{Counted, numbers, surroundings, to_shop, missing}
use dealer.Gateway.Reloading.{Routes, begin, poll_all, serve_http}
use dealer.Gateway.Reloading.Stopping.{start-in_force}
use dealer.Gateway.Reloading.Freshness.{IsWhole, in_force, begin-missed, poll_all-in_force}
use dealer.Http.Request.{Request}
use dealer.Plugin.Contract.{Env}

abbrev service : String → Service ℕ
service host = record {
  name = "shop";
  path = "/";
  host = host;
  origin_url = "http://a";
  origin_urls = [];
  methods = [];
  plugins = [];
  health_check = none;
  retry_unsafe_methods = false;
  preserve_request_id = false;
}

-- Versions of one, two and three bytes: the last one does not load.
abbrev version : ℕ → FileInfo
version n = record { mod_time = n; size = n }

abbrev content : FileInfo → Result String (Config ℕ)
content info =
    if info.size == 1
    then ok (record { services = service "a.example" ∷ [] })
    else if info.size == 2
    then ok (record { services = service "a.example" ∷ service "b.example" ∷ [] })
    else err "bad yaml"

abbrev nowhere : Routes numbers
nowhere r = none

-- A configuration with one service routes to the shop, any other nowhere.
abbrev routes_of : List (Service ℕ) → Routes numbers
routes_of [] = nowhere
routes_of (svc ∷ []) = to_shop
routes_of (svc ∷ svc' ∷ svcs) = nowhere

abbrev build : Config ℕ → Result String (Routes numbers)
build cfg = ok (routes_of cfg.services)

abbrev first : Config ℕ × Routes numbers
first = (record { services = service "a.example" ∷ [] }, to_shop)

-- What a poll finds at a version: it loads that version's content.
abbrev poll : FileInfo → Disk (Config ℕ) String
poll info = record { stat = some info; load = content info }

abbrev unreadable : Disk (Config ℕ) String
unreadable = record { stat = none; load = err "unreadable" }

-- The file is edited, cannot be read for a while, and is edited again, badly.
abbrev found : List (Disk (Config ℕ) String)
found = poll (version 2) ∷ unreadable ∷ poll (version 2) ∷ poll (version 3) ∷ []

poll-IsWhole : (info seen : FileInfo) → some info ≡ some seen → content info ≡ content seen
poll-IsWhole info seen e = let same : info ≡ seen = cc in ap content same

found-IsWhole : All (IsWhole content build) found
found-IsWhole = (
  poll-IsWhole (version 2),
  ((λ seen e. cc), (poll-IsWhole (version 2), (poll-IsWhole (version 3), tt))),
)

now_in_force :
    (in_force content build first found).0.services ≡ service "a.example" ∷ service "b.example" ∷ []
unfolding in_force
now_in_force = refl

poll_all-in_force_example :
    let force = in_force content build first found in
    (s : Watcher × Gateway (Routes numbers)) × (begin build (content (version 1)) (some (version 1))
      ≡ ok s)
    × ((r : Request) (e : Env Counted)
        → serve_http numbers surroundings missing none false (poll_all build found s).1 r e
          ≡ serve numbers surroundings force.1 missing none false r e)
    × ((host : String)
        → has_host (poll_all build found s).1 host
          ≡ elem (trim_suffix (to_lower host) ".") (hosts force.0))
poll_all-in_force_example =
    poll_all-in_force numbers surroundings missing none false content build (version 1) first found
      refl found-IsWhole

start-in_force_example :
    (s : Watcher × Gateway (Routes numbers)) × (last : Watcher × Gateway (Routes numbers)) × (begin
        build
        (content (version 1))
        (some (version 1))
      ≡ ok s)
    × (start (on_reload build) (pos 5) (map tick found ++ done ∷ tick unreadable ∷ []) s
        ≡ some (last, true))
    × (last.1.mux ≡ (in_force content build first found).1)
    × (last.1.hosts ≡ hosts (in_force content build first found).0)
start-in_force_example =
    start-in_force content build (pos 5) (version 1) first found (tick unreadable ∷ []) refl refl
      found-IsWhole

-- The polls see the new version, and would load it.
begin-missed_example :
    (s : Watcher × Gateway (Routes numbers)) × (begin build (content (version 1)) (some (version 2))
      ≡ ok s)
    × ((poll_all build (poll (version 2) ∷ poll (version 2) ∷ []) s).1.mux ≡ to_shop)
begin-missed_example =
    begin-missed content build (version 1) (version 2) first
      (poll (version 2) ∷ poll (version 2) ∷ []) refl (refl, (refl, tt))
