-- ===== src/Gateway/Generations/Swapping.antt =====
-- What a hot reload of gateway/gateway.go changes, and what keeps running.
use dealer.Base.{
  ℕ, ◌≡◌, true, false, List, [], ◌∷◌, String, arith, elem, to_lower, trim_suffix, Result, ok, err,
  Result-cases, inl, inr,
}
use dealer.Config.Types.{Config}
use dealer.Config.Hosts.{hosts}
use dealer.Gateway.Generations.{
  Gateway, store_hosts, has_host, cancel, start_generation, start, on_reload, close,
}

-- The reloads that a gateway receives, one after the other.
unfoldable pub reload_all :
    {F E M : Type 0} → (Config F → Result E M) → List (Config F) → Gateway M → Gateway M
unfolding on_reload
reload_all build [] g = g
reload_all build (cfg ∷ cfgs) g = reload_all build cfgs (on_reload build cfg g).0

-- Only the current generation runs.
abbrev pub RunsCurrent : {M : Type 0} → Gateway M → Type 0
RunsCurrent g = g.running ≡ g.generation ∷ []

cancel_self : (n : ℕ) → cancel n (n ∷ []) ≡ []
unfolding cancel
cancel_self n = ground arith

start_generation-RunsCurrent :
    {M : Type 0} (g : Gateway M) → RunsCurrent g → RunsCurrent (start_generation g)
unfolding start_generation
start_generation-RunsCurrent g h = rw (h, cancel_self g.generation)

on_reload-RunsCurrent :
    {F E M : Type 0} (build : Config F → Result E M) (cfg : Config F) (g : Gateway M)
    → RunsCurrent g
    → RunsCurrent (on_reload build cfg g).0
unfolding on_reload store_hosts
on_reload-RunsCurrent build cfg g h = elim (Result-cases (build cfg)) [
  | inl (m, e) ↦
      rw (e, on_reload) (start_generation-RunsCurrent (store_hosts cfg (record g { mux = m })) h)
  | inr (x, e) ↦ rw (e, on_reload) h
]

-- After any reloads, good and bad, of a gateway that runs exactly its current generation, exactly
-- the current one runs: no prober of a replaced configuration is left.
pub reload_all-RunsCurrent :
    {F E M : Type 0} (build : Config F → Result E M) (cfgs : List (Config F)) (g : Gateway M)
    → RunsCurrent g
    → RunsCurrent (reload_all build cfgs g)
unfolding reload_all
reload_all-RunsCurrent build [] g h = h
reload_all-RunsCurrent build (cfg ∷ cfgs) g h =
    reload_all-RunsCurrent build cfgs (on_reload build cfg g).0
      (on_reload-RunsCurrent build cfg g h)

-- A reload that builds serves the new routes and knows the new configuration's hosts; one that
-- does not build changes nothing and reports that it failed.
on_reload_lem :
    {F E M : Type 0} (build : Config F → Result E M) (cfg : Config F) (g : Gateway M)
    → ((m : M)
        → build cfg ≡ ok m
        → ((on_reload build cfg g).1 ≡ true)
          × ((on_reload build cfg g).0.mux ≡ m)
          × ((host : String)
              → has_host (on_reload build cfg g).0 host
                ≡ elem (trim_suffix (to_lower host) ".") (hosts cfg)))
      × ((e : E) → build cfg ≡ err e → on_reload build cfg g ≡ (g, false))
unfolding on_reload store_hosts start_generation has_host
on_reload_lem build cfg g = (
  (λ m e. (rw (e, on_reload), rw (e, on_reload), λ host. rw (e, on_reload))),
  λ x e. rw (e, on_reload),
)

started-RunsCurrent :
    {F E M : Type 0} (build : Config F → Result E M) (first : Config F) (g : Gateway M)
    → start build first ≡ ok g
    → RunsCurrent g
unfolding start store_hosts
started-RunsCurrent build first g h = ground arith

-- A gateway that was started, reloaded any number of times and closed runs nothing.
pub close-reload_all :
    {F E M : Type 0} (build : Config F → Result E M) (first : Config F) (cfgs : List (Config F))
    (g : Gateway M)
    → start build first ≡ ok g
    → (close (reload_all build cfgs g)).running ≡ []
unfolding close
close-reload_all build first cfgs g h =
    rw (reload_all-RunsCurrent build cfgs g (started-RunsCurrent build first g h))
      (cancel_self (reload_all build cfgs g).generation)
