-- ===== src/Plugin/RateLimit/Clients/Forgetting.antt =====
-- The sweep of gateway/internal/plugin/rate_limiting.go where ten minutes do not fill a bucket.
use dealer.Base.{ℕ, ◌≡◌, refl, ◌∙◌, true, some, String, inl, inr, Bool-cases}
use dealer.Plugin.Values.{Float}
use dealer.Plugin.RateLimit.{Visitor, find, one, refill, allow_memory}
use dealer.Plugin.RateLimit.Clients.{
  Requests, taken, after, is_due, allow_memory-taken, after-Distinct,
}
use dealer.Plugin.RateLimit.Staleness.{is_stale, find-sweep}

module _ (fl : Float) where
  open fl use {F, lt}

  -- A client that was idle for more than ten minutes and whose bucket has no whole token yet is let
  -- through exactly if its request is one on which the sweep is made, whoever made the others.
  pub allow_memory-forgets :
      (rps burst : F) (rs : Requests) (key : String) (now : ℕ) (v : Visitor F)
      → find key (after fl rps burst rs).visitors ≡ some v
      → is_stale now v.last_seen ≡ true
      → lt (refill fl rps burst now v) (one fl) ≡ true
      → (allow_memory fl key rps burst now (after fl rps burst rs)).1
        ≡ is_due fl (after fl rps burst rs)
  unfolding taken
  allow_memory-forgets rps burst rs key now v there old few =
      let s = after fl rps burst rs in
      (allow_memory-taken fl key rps burst now s).1 ∙ elim (Bool-cases (is_due fl s)) [
        | inl due ↦
            rw (due, find-sweep now key s.visitors (after-Distinct fl rps burst rs), there, old)
              refl
        | inr idle ↦ rw (idle, there, few) refl
      ]
