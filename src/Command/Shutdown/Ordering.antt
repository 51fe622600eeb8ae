-- ===== src/Command/Shutdown/Ordering.antt =====
-- In what order cmd/dealer/main.go stops its servers, and whether the gateway is closed.
use dealer.Base.{
  ◌≡◌, refl, ◌∙◌, Bool, true, false, not, Option, none, some, List, [], ◌∷◌, ◌++◌, any, arith,
  if◌then◌else◌, ◌||◌,
}
use dealer.Command.Servers.{Server, Running}
use dealer.Command.Shutdown.{
  Ending, served, signalled, Action, shutdown_debug, shutdown_metrics, shutdown_acme, shutdown_main,
  close_gateway, exit_fatal, if_running, leave, wind_up,
}

abbrev pub failed_of : Ending → Bool
failed_of (served failed) = failed
failed_of (signalled failed) = failed

abbrev pub is_close : Action → Bool
is_close close_gateway = true
is_close _ = false

-- The last of the actions.
abbrev pub last_of : Action → List Action → Action
last_of a [] = a
last_of a (b ∷ bs) = last_of b bs

any-append : (xs ys : List Action) → any is_close (xs ++ ys) ≡ (any is_close xs || any is_close ys)
any-append [] ys = refl
any-append (a ∷ xs) ys = ground (arith, any-append xs ys)

last_of-append : (a b : Action) (xs ys : List Action) → last_of a (xs ++ b ∷ ys) ≡ last_of b ys
last_of-append a b [] ys = refl
last_of-append a b (c ∷ xs) ys = last_of-append c b xs ys

any-if_running :
    {C : Type 0} (srv : Option (Server C)) (a : Action)
    → is_close a ≡ false
    → any is_close (if_running srv a) ≡ false
any-if_running none a h = refl
any-if_running (some srv) a h = rw h

-- The servers beside the main one, as they are stopped.
abbrev helpers : {C G : Type 0} → Running C G → List Action
helpers run =
    if_running run.debug_srv shutdown_debug
    ++ if_running run.metrics_srv shutdown_metrics
    ++ if_running run.acme_http_srv shutdown_acme

helpers-no_close : {C G : Type 0} (run : Running C G) → any is_close (helpers run) ≡ false
helpers-no_close run =
    rw
      (any-append
        (if_running run.debug_srv shutdown_debug ++ if_running run.metrics_srv shutdown_metrics)
        (if_running run.acme_http_srv shutdown_acme))
      (rw
        (any-append (if_running run.debug_srv shutdown_debug)
          (if_running run.metrics_srv shutdown_metrics))
        (rw (any-if_running run.debug_srv shutdown_debug refl) (
          rw (any-if_running run.metrics_srv shutdown_metrics refl)
            (any-if_running run.acme_http_srv shutdown_acme refl))))

-- The gateway is closed, and then last of all, exactly if the main server did not fail: if its
-- listener fails, or its shutdown does not finish in time, the command exits without closing it.
pub wind_up-closes :
    {C G : Type 0} (run : Running C G) (e : Ending)
    → (any is_close (wind_up run e) ≡ not (failed_of e))
      × (last_of shutdown_main (wind_up run e)
          ≡ (if failed_of e then exit_fatal else close_gateway))
unfolding wind_up
wind_up-closes run (served true) = (refl, refl)
wind_up-closes run (served false) = (refl, refl)
wind_up-closes run (signalled true) = (
  any-append (helpers run) (shutdown_main ∷ leave true) ∙ (rw (helpers-no_close run)),
  last_of-append shutdown_main shutdown_main (helpers run) (leave true),
)
wind_up-closes run (signalled false) = (
  any-append (helpers run) (shutdown_main ∷ leave false) ∙ (rw (helpers-no_close run)),
  last_of-append shutdown_main shutdown_main (helpers run) (leave false),
)
