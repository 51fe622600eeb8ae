-- ===== src/Acmecert/Policy.antt =====
-- Which hosts cmd/dealer/internal/acmecert/acmecert.go requests certificates for.
use dealer.Base.{◌≡◌, ◌↔◌, true, Bool, some, String, arith, ok, subst}
use dealer.Acmecert.{Options, Manager, new, host_policy}

host_policy-ok_iff :
    (allowed : String → Bool) (host : String)
    → (host_policy allowed host ≡ ok tt) ↔ (allowed host ≡ true)
unfolding host_policy
host_policy-ok_iff allowed host = ground arith

-- The manager allows the hosts that the check allows, and no others.
pub new-policy :
    (opts : Options) (allowed : String → Bool) {m : Manager}
    → opts.allowed ≡ some allowed
    → new opts ≡ ok m
    → (host : String) → (m.host_policy host ≡ ok tt) ↔ (allowed host ≡ true)
unfolding new
new-policy opts allowed {m} checked made host =
    let policy : host_policy allowed ≡ m.host_policy = ground arith in
    subst (λ p. (p host ≡ ok tt) ↔ (allowed host ≡ true)) policy (host_policy-ok_iff allowed host)
