-- ===== src/Acmecert.antt =====
-- cmd/dealer/internal/acmecert/acmecert.go. The manager of the ACME library is what New sets in it.
pub mod Policy
use dealer.Base.{Bool, Option, none, some, String, is_empty, if◌then◌else◌, Result, ok, err}

pub record Options : Type 0 where
  pub email : String
  pub cache_dir : String
  pub directory_url : String
  pub allowed : Option (String → Bool)

pub data AcmeError : Type 0 where
  email_required : AcmeError
  host_check_required : AcmeError
  not_served : String → AcmeError

abbrev pub default_cache_dir : String
default_cache_dir = "acme-cache"

-- autocert.Manager: `client` is the directory's address, none for the library's own.
pub record Manager : Type 0 where
  pub email : String
  pub cache : String
  pub host_policy : String → Result AcmeError (Unit {0})
  pub client : Option String

-- The HostPolicy that New sets.
unfoldable pub host_policy : (String → Bool) → String → Result AcmeError (Unit {0})
host_policy allowed host = if allowed host then ok tt else err (not_served host)

-- New
unfoldable pub new : Options → Result AcmeError Manager
unfolding host_policy
new opts = if is_empty opts.email then err email_required else elim opts.allowed [
  | none ↦ err host_check_required
  | some allowed ↦ ok (record {
    email = opts.email;
    cache = if is_empty opts.cache_dir then default_cache_dir else opts.cache_dir;
    host_policy = host_policy allowed;
    client = if is_empty opts.directory_url then none else some opts.directory_url;
  })
]
