-- ===== src/Config/Types.antt =====
-- gateway/internal/config/types.go. A plugin's free-form `config` is a YAML value as yaml.v3 decodes
-- it into `any`; `F` is Go's float64.
use dealer.Base.{Bool, Option, none, some, List, String, str_eq, if◌then◌else◌, ℤ}

mutual
  pub data Value (F : Type 0) : Type 0 where
    nil : Value F
    bool : Bool → Value F
    int : ℤ → Value F
    int64 : ℤ → Value F
    float : F → Value F
    text : String → Value F
    list : Values F → Value F
    dict : Entries F → Value F

  pub data Values (F : Type 0) : Type 0 where
    end : Values F
    item : Value F → Values F → Values F

  pub data Entries (F : Type 0) : Type 0 where
    empty : Entries F
    entry : String → Value F → Entries F → Entries F

-- m[key], with Go's second result.
unfoldable pub get : {F : Type 0} → Entries F → String → Option (Value F)
get empty key = none
get (entry k v es) key = if str_eq k key then some v else get es key

pub record PluginConfig (F : Type 0) : Type 0 where
  pub name : String
  pub config : Entries F

pub record HealthCheckConfig : Type 0 where
  pub path : String
  pub interval : String

pub record Service (F : Type 0) : Type 0 where
  pub name : String
  pub path : String
  pub host : String
  pub origin_url : String
  pub origin_urls : List String
  pub methods : List String
  pub plugins : List (PluginConfig F)
  pub health_check : Option HealthCheckConfig
  pub retry_unsafe_methods : Bool
  pub preserve_request_id : Bool

pub record Config (F : Type 0) : Type 0 where
  pub services : List (Service F)
