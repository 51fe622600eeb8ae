-- ===== src/Plugin/SugarDb.antt =====
-- gateway/internal/plugin/ratelimit_sugardb.go: the embedded database of a process. SugarDB is a
-- parameter: its default configuration, and what starting it gives; so is os.MkdirTemp.
pub mod Once
pub mod Window
mod Examples
use dealer.Base.{
  ℕ, zero, suc, Bool, true, false, Option, none, some, String, is_empty, if◌then◌else◌, codes, ltb,
  Result, ok, err, ◌>>=◌,
}
use dealer.Command.Environment.{Environment, getenv, digits, digits_from, parse_bool}

-- sugarDBNodeConfig
pub record NodeConfig : Type 0 where
  pub bind_addr : String
  pub join_addr : String
  pub bootstrap : Bool
  pub server_id : String
  pub data_dir : String
  pub discovery_port : ℕ  -- uint16

-- The fields of SugarDB's configuration that are set.
pub record DbConfig : Type 0 where
  pub bind_addr : String
  pub join_addr : String
  pub bootstrap_cluster : Bool
  pub server_id : String
  pub data_dir : String
  pub discovery_port : ℕ

pub data SetupError : Type 0 where
  invalid_setting : String → String → SetupError
  no_data_dir : SetupError
  start_failed : String → SetupError

abbrev pub or_else : String → String → String
or_else given fallback = if is_empty given then fallback else given

abbrev pub or_port : ℕ → ℕ → ℕ
or_port zero fallback = fallback
or_port (suc n) fallback = suc n

-- The directory that is given, or a fresh one, none where it cannot be made.
abbrev pub data_dir_of : Option String → String → Result SetupError String
data_dir_of fresh given =
    if is_empty given then elim fresh [ none ↦ err no_data_dir | some dir ↦ ok dir ] else ok given

-- strconv.ParseUint(raw, 10, 16)
abbrev pub parse_port : String → Option ℕ
parse_port raw = elim (digits (codes raw)) [
  | none ↦ none
  | some n ↦ if ltb n 65536 then some n else none
]

module _ {D : Type 0} (default_config : DbConfig) (mkdir_temp : Option String)
    (new_sugar_db : DbConfig → Result String D) where
  abbrev pub started : Result String D → Result SetupError D
  started (err why) = err (start_failed why)
  started (ok db) = ok db

  -- newSugarDBInstance
  unfoldable pub new_sugar_db_instance : NodeConfig → Result SetupError D
  new_sugar_db_instance nc = do
    data_dir ← data_dir_of mkdir_temp nc.data_dir
    started (
        new_sugar_db (record {
          bind_addr = or_else nc.bind_addr default_config.bind_addr;
          join_addr = or_else nc.join_addr default_config.join_addr;
          bootstrap_cluster = nc.bootstrap;
          server_id = or_else nc.server_id default_config.server_id;
          data_dir = data_dir;
          discovery_port = or_port nc.discovery_port default_config.discovery_port;
        }))

  -- A variable that is parsed, with what an unset one stands for.
  abbrev pub setting :
      {A : Type 0} → Environment → String → (String → Option A) → A → Result SetupError A
  setting env key parse unset =
      if is_empty (getenv env key) then ok unset else elim (parse (getenv env key)) [
        | none ↦ err (invalid_setting key (getenv env key))
        | some value ↦ ok value
      ]

  -- The function that getSharedSugarDBStore runs once.
  unfoldable pub set_up : Environment → Result SetupError D
  unfolding new_sugar_db_instance parse_bool digits_from
  set_up env = do
    bootstrap ← setting env "DEALER_RATELIMIT_CLUSTER_BOOTSTRAP" parse_bool false
    port ← setting env "DEALER_RATELIMIT_CLUSTER_DISCOVERY_PORT" parse_port 0
    new_sugar_db_instance (record {
      bind_addr = getenv env "DEALER_RATELIMIT_CLUSTER_BIND_ADDR";
      join_addr = getenv env "DEALER_RATELIMIT_CLUSTER_JOIN_ADDR";
      bootstrap = bootstrap;
      server_id = getenv env "DEALER_RATELIMIT_CLUSTER_SERVER_ID";
      data_dir = getenv env "DEALER_RATELIMIT_CLUSTER_DATA_DIR";
      discovery_port = port;
    })

  -- sharedSugarDBOnce with what it has set; none before the first call.
  abbrev pub Shared : Type 0
  Shared = Option (Result SetupError D)

  -- getSharedSugarDBStore: what is shared from then on, and the store or the error.
  unfoldable pub get_shared : Environment → Shared → Shared × Result SetupError D
  unfolding set_up
  get_shared env none = (some (set_up env), set_up env)
  get_shared env (some outcome) = (some outcome, outcome)
