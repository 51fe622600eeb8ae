-- ===== src/Plugin/SizeLimit.antt =====
-- gateway/internal/plugin/request_size_limiting.go.
pub mod Limits
use dealer.Base.{
  Option, none, some, List, ◌∷◌, String, if◌then◌else◌, ℤ, pos, leb_ℤ, ltb_ℤ, Result, ok, err,
  ◌>>=◌,
}
use dealer.Config.Types.{Entries, get}
use dealer.Http.Request.{Request}
use dealer.Http.Writer.{write_header}
use dealer.Plugin.Contract.{Env, Handler, Plugin, on_writer}
use dealer.Plugin.Values.{PluginError, required, out_of_range, Float, to_int64}

pub record RequestSizeLimiting : Type 0 where
  pub max_bytes : ℤ

module _ (fl : Float) where
  open fl use {F}

  unfoldable pub new_request_size_limiting : Entries F → Result PluginError RequestSizeLimiting
  unfolding get to_int64
  new_request_size_limiting cfg = elim (get cfg "max_bytes") [
    | none ↦ err (required "request_size_limiting: config.max_bytes")
    | some raw ↦ to_int64 fl "request_size_limiting: config.max_bytes" raw >>= λ max_bytes.
        (if leb_ℤ max_bytes (pos 0)
          then err (out_of_range "request_size_limiting: config.max_bytes")
          else ok (record { max_bytes = max_bytes }))
  ]

unfoldable pub wrap_request_size_limiting :
    {S : Type 0} → RequestSizeLimiting → Handler S → Handler S
wrap_request_size_limiting p next r e =
    if ltb_ℤ p.max_bytes r.content_length
    then on_writer (write_header 413) e
    else next (record r { body_limits = p.max_bytes ∷ r.body_limits }) e

-- NewRequestSizeLimiting
unfoldable pub request_size_limiting_plugin : {S : Type 0} → RequestSizeLimiting → Plugin S
unfolding wrap_request_size_limiting
request_size_limiting_plugin p = record {
  name = "request_size_limiting";
  wrap = wrap_request_size_limiting p;
}
