-- ===== src/Plugin/SugarDb/Examples.antt =====
-- The results on gateway/internal/plugin/ratelimit_sugardb.go at a database of counters.
use Prim.Native.Nat.{◌*◌}
use dealer.Base.{
  ℕ, ◌+◌, ◌-◌, ◌≡◌, refl, Bool, true, false, Option, none, some, String, ltb, leb, ℤ, pos, pos_part,
  Result, ok, err, str_eq, if◌then◌else◌,
}
use dealer.Command.Environment.{Environment}
use dealer.Plugin.SugarDb.{DbConfig, invalid_setting, set_up}
use dealer.Plugin.SugarDb.Window.{requests, requests-window, requests-unexpired}
use dealer.Plugin.Values.{Float}

abbrev numbers : Float
numbers = record {
  F = ℕ;
  of_int = λ n. pos_part n;
  to_int = λ n. pos n;
  add = λ a b. a + b;
  sub = λ a b. a - b;
  mul = λ a b. a * b;
  lt = ltb;
  le = leb;
  seconds = λ d. pos_part d;
}

-- The database is the counter of the one key.
abbrev count_up : String → ℕ → ℕ × Option ℤ
count_up key d = (d + 1, some (pos (d + 1)))

abbrev expires : String → ℕ → ℕ × Bool
expires key d = (d, true)

abbrev fails : String → ℕ → ℕ × Bool
fails key d = (d, false)

requests-window_example : (requests numbers count_up expires "10.0.0.1" 2 3 9 5 0).1 ≡ 3
requests-window_example =
    requests-window numbers count_up expires "10.0.0.1" 2 3 (λ d. d) (λ d. (refl, refl))
      (λ d. (refl, refl)) 9 5 0 refl

requests-unexpired_example : (requests numbers count_up fails "10.0.0.1" 2 3 9 6 0).1 ≡ 2
requests-unexpired_example =
    requests-unexpired numbers count_up fails "10.0.0.1" 2 3 (λ d. d) (λ d. (refl, refl)) 9 5 0 refl
      refl refl

abbrev defaults : DbConfig
defaults = record {
  bind_addr = "localhost";
  join_addr = "";
  bootstrap_cluster = false;
  server_id = "";
  data_dir = "";
  discovery_port = 7946;
}

-- A database that is its configuration's port.
abbrev start_db : DbConfig → Result String ℕ
start_db cfg = ok cfg.discovery_port

abbrev unset : Environment
unset key = none

abbrev bad_port : Environment
bad_port key = if str_eq key "DEALER_RATELIMIT_CLUSTER_DISCOVERY_PORT" then some "65536" else none

bad_port_refused :
    set_up defaults (some "/tmp/dealer") start_db bad_port
    ≡ err (invalid_setting "DEALER_RATELIMIT_CLUSTER_DISCOVERY_PORT" "65536")
unfolding set_up
bad_port_refused = refl
