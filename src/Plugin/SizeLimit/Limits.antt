-- ===== src/Plugin/SizeLimit/Limits.antt =====
-- What request_size_limiting of gateway/internal/plugin/request_size_limiting.go lets through.
use dealer.Base.{◌≡◌, true, ◌∷◌, arith, if◌then◌else◌, pos, ltb_ℤ, ok}
use dealer.Config.Types.{Entries}
use dealer.Http.Request.{Request}
use dealer.Http.Writer.{write_header}
use dealer.Plugin.Contract.{Env, Handler, on_writer}
use dealer.Plugin.Values.{Float}
use dealer.Plugin.SizeLimit.{
  RequestSizeLimiting, new_request_size_limiting, wrap_request_size_limiting,
}

-- A configured limit is positive.
pub new_request_size_limiting_positive :
    (fl : Float) (cfg : Entries fl.F) (p : RequestSizeLimiting)
    → new_request_size_limiting fl cfg ≡ ok p
    → ltb_ℤ (pos 0) p.max_bytes ≡ true
unfolding new_request_size_limiting
new_request_size_limiting_positive fl cfg p h = ground arith

module _ {S : Type 0} (outer inner : RequestSizeLimiting) (r : Request) (e : Env S)
    (next : Handler S) where
  -- Two limits, the gateway's and a service's own: a declared length above either is answered by
  -- 413 without the handler behind them; else the handler gets a body that both limits cap.
  pub nested_limits :
      wrap_request_size_limiting outer (wrap_request_size_limiting inner next) r e ≡ (
        if ltb_ℤ outer.max_bytes r.content_length
        then on_writer (write_header 413) e
        else if ltb_ℤ inner.max_bytes r.content_length
        then on_writer (write_header 413) e
        else next (record r { body_limits = inner.max_bytes ∷ outer.max_bytes ∷ r.body_limits }) e)
  unfolding wrap_request_size_limiting
  nested_limits = ground arith
