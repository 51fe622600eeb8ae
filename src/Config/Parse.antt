-- ===== src/Config/Parse.antt =====
-- gateway/internal/config/parse.go: Parse and Load. The YAML decoder, time.ParseDuration and the
-- reading of a file are parameters.
pub mod Validation
use dealer.Base.{
  ℕ, zero, suc, ◌+◌, ◌<◌, ltb, Bool, true, false, ◌&&◌, ◌||◌, not, Option, none, some, List, [],
  ◌∷◌, String, is_empty, str_eq, if◌then◌else◌, length, any, ℤ, Result, ok, err, ◌>>=◌, ◌>>◌,
}
use dealer.Config.Types.{Config, Service, HealthCheckConfig}
use dealer.Config.HostName.{host_pattern_matches}

pub data ConfigError : Type 0 where
  read_failed : String → ConfigError
  bad_yaml : String → ConfigError
  name_required : ℕ → ConfigError
  path_required : String → ConfigError
  bad_host : String → String → ConfigError
  origin_required : String → ConfigError
  origins_exclusive : String → ConfigError
  empty_origin : String → ConfigError
  bad_interval : String → ConfigError

abbrev pub is_nil : List String → Bool
is_nil [] = true
is_nil (u ∷ us) = false

abbrev pub guard : Bool → ConfigError → Result ConfigError (Unit {0})
guard bad e = if bad then err e else ok tt

-- The interval is there and is no duration.
abbrev pub has_bad_interval : (String → Option ℤ) → Option HealthCheckConfig → Bool
has_bad_interval parse_duration none = false
has_bad_interval parse_duration (some h) =
    not (is_empty h.interval) && elim (parse_duration h.interval) [ none ↦ true | some d ↦ false ]

module _ {F : Type 0} (parse_duration : String → Option ℤ) where
  -- The body of the loop of Parse.
  unfoldable pub check_service : ℕ → Service F → Result ConfigError (Unit {0})
  check_service i svc = do
    guard (is_empty svc.name) (name_required i)
    guard (is_empty svc.path) (path_required svc.name)
    guard (not (is_empty svc.host) && not (host_pattern_matches svc.host))
        (bad_host svc.name svc.host)
    guard (is_empty svc.origin_url && is_nil svc.origin_urls) (origin_required svc.name)
    guard (not (is_empty svc.origin_url) && not (is_nil svc.origin_urls))
        (origins_exclusive svc.name)
    guard (any is_empty svc.origin_urls) (empty_origin svc.name)
    guard (has_bad_interval parse_duration svc.health_check) (bad_interval svc.name)

  unfoldable pub check_services : ℕ → List (Service F) → Result ConfigError (Unit {0})
  unfolding check_service
  check_services i [] = ok tt
  check_services i (svc ∷ svcs) = do check_service i svc; check_services (i + 1) svcs

  unfoldable pub parse :
      {Data : Type 0} → (Data → Result String (Config F)) → Data → Result ConfigError (Config F)
  unfolding check_services
  parse unmarshal contents = elim (unmarshal contents) [
    | err e ↦ err (bad_yaml e)
    | ok cfg ↦ check_services 0 cfg.services >>= λ _. ok cfg
  ]

  unfoldable pub load :
      {Data : Type 0}
      → (Data → Result String (Config F))
      → (String → Option Data)
      → String
      → Result ConfigError (Config F)
  unfolding parse
  load unmarshal read_file path = elim (read_file path) [
    | none ↦ err (read_failed path)
    | some contents ↦ parse unmarshal contents
  ]
