-- ===== src/Gateway/Generations.antt =====
-- gateway/gateway.go: what a gateway holds of the current configuration, and how a hot reload
-- replaces it. `M` is a compiled routing table with its probers and plugins.
pub mod Swapping
use dealer.Base.{
  ℕ, suc, ◌+◌, Bool, true, false, Option, none, some, List, [], ◌∷◌, String, elem, ◌==◌, to_lower,
  trim_suffix, if◌then◌else◌, Result, ok, err,
}
use dealer.Config.Types.{Config}
use dealer.Config.Hosts.{hosts}

-- The pointers of a Gateway. A generation's probers and log flusher run under a context; `running`
-- lists the generations whose context is not cancelled.
pub record Gateway (M : Type 0) : Type 0 where
  pub mux : M
  pub hosts : List String
  pub generation : ℕ
  pub running : List ℕ

unfoldable pub store_hosts : {F M : Type 0} → Config F → Gateway M → Gateway M
unfolding hosts
store_hosts cfg g = record g { hosts = hosts cfg }

-- HasHost
unfoldable pub has_host : {M : Type 0} → Gateway M → String → Bool
unfolding to_lower trim_suffix
has_host g host = elem (trim_suffix (to_lower host) ".") g.hosts

-- Cancelling a generation's context.
unfoldable pub cancel : ℕ → List ℕ → List ℕ
cancel n [] = []
cancel n (m ∷ ms) = if m == n then cancel n ms else m ∷ cancel n ms

-- startProbers and startLogFlusher: the new generation runs, and the one before it is cancelled.
unfoldable pub start_generation : {M : Type 0} → Gateway M → Gateway M
unfolding cancel
start_generation g = record g {
  generation = g.generation + 1;
  running = (g.generation + 1) ∷ cancel g.generation g.running;
}

module _ {F E M : Type 0} (build : Config F → Result E M) where
  -- The first generation of New.
  unfoldable pub start : Config F → Result E (Gateway M)
  unfolding store_hosts
  start cfg = elim (build cfg) [
    | err e ↦ err e
    | ok mux ↦
        ok (store_hosts cfg (record { mux = mux; hosts = []; generation = 0; running = 0 ∷ [] }))
  ]

  -- onReload: the new state, and whether it succeeded.
  unfoldable pub on_reload : Config F → Gateway M → Gateway M × Bool
  unfolding store_hosts start_generation
  on_reload cfg g = elim (build cfg) [
    | err e ↦ (g, false)
    | ok mux ↦ (start_generation (store_hosts cfg (record g { mux = mux })), true)
  ]

-- Close
unfoldable pub close : {M : Type 0} → Gateway M → Gateway M
unfolding cancel
close g = record g { running = cancel g.generation g.running }
