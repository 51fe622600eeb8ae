-- ===== src/Config/Examples.antt =====
-- The configuration's theorems at concrete services and edits.
use dealer.Base.{
  ℕ, ◌≡◌, refl, ◌↔◌, true, false, Option, none, some, List, [], ◌∷◌, String, ℤ, Result, ok, err,
  All, pos, tick, done, ticked,
}
use dealer.Config.Types.{Config, Service}
use dealer.Config.HostName.{host_pattern_matches}
use dealer.Config.Parse.{path_required, check_services, parse}
use dealer.Config.Parse.Validation.{IsWellFormed, parse-ok_iff}
use dealer.Config.Hosts.{hosts}
use dealer.Config.Watcher.{FileInfo, Watcher, Disk, Reload, poll_once, start}
use dealer.Config.Watcher.Ticking.{start-cancelled}

abbrev service : String → String → String → Service ℕ
service name path host = record {
  name = name;
  path = path;
  host = host;
  origin_url = "http://a";
  origin_urls = [];
  methods = [];
  plugins = [];
  health_check = none;
  retry_unsafe_methods = false;
  preserve_request_id = false;
}

abbrev two_services : Config ℕ
two_services = record {
  services = service "b" "/b" "b.example" ∷ service "a" "/a" "a.example" ∷ [];
}

abbrev broken : List (Service ℕ)
broken = service "b" "/b" "b.example" ∷ service "a" "" "" ∷ []

-- No text is a duration, every document is the two services.
abbrev no_duration : String → Option ℤ
no_duration s = none

abbrev decode : String → Result String (Config ℕ)
decode contents = ok two_services

parse-ok_iff_example :
    (parse no_duration decode "" ≡ ok two_services)
    ↔ ((decode "" ≡ ok two_services) × All (IsWellFormed no_duration) two_services.services)
parse-ok_iff_example = parse-ok_iff no_duration decode "" two_services

broken_refused : check_services no_duration 0 broken ≡ err (path_required "a")
unfolding check_services host_pattern_matches
broken_refused = refl

sorted_hosts : hosts two_services ≡ "a.example" ∷ "b.example" ∷ []
unfolding hosts
sorted_hosts = refl

abbrev edited : FileInfo
edited = record { mod_time = 20; size = 7 }

abbrev watcher : Watcher
watcher = record { last_mod_time = 10; last_size = 7 }

-- A configuration is a number, and so is the state, which a reload replaces.
abbrev disk : Disk ℕ String
disk = record { stat = some edited; load = ok 5 }

abbrev take_over : Reload ℕ ℕ
take_over cfg s = (cfg, true)

start-cancelled_example :
    start take_over (pos 2) (tick disk ∷ tick disk ∷ done ∷ tick disk ∷ []) (watcher, 1)
    ≡ some (ticked (λ d (v, t). poll_once take_over d v t) (disk ∷ disk ∷ []) (watcher, 1), true)
start-cancelled_example =
    start-cancelled take_over (pos 2) (disk ∷ disk ∷ []) (tick disk ∷ []) watcher 1 refl
