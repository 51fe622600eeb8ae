-- ===== src/Gateway/Reloading.antt =====
-- gateway/gateway.go with gateway/internal/config/watcher.go: a running gateway whose configuration
-- file is edited. What os.Stat and Load find is given for each look at the file, each apart from the
-- other, since the file may be edited between the two. `build` is buildMux at the gateway's options,
-- where it returns: a panic in it, or in a prober that it made, ends the process.
pub mod Freshness
pub mod Stopping
mod Examples
use dealer.Base.{ℕ, Bool, Option, none, some, List, [], ◌∷◌, Result, ok, err, ◌>>=◌}
use dealer.ClientIp.{Resolver}
use dealer.Config.Hosts.{hosts}
use dealer.Config.Types.{Config}
use dealer.Config.Watcher.{FileInfo, Watcher, Disk, new_watcher, poll_once}
use dealer.Gateway.Assembly.{ServiceHandler}
use dealer.Gateway.Generations.{Gateway, start, on_reload}
use dealer.Gateway.Pipeline.{Outside, World, serve}
use dealer.Http.Request.{Request}
use dealer.Plugin.Contract.{Handler}
use dealer.Plugin.Values.{Float}

module _ {F E M : Type 0} (build : Config F → Result E M) where
  -- Of New: the configuration is loaded and compiled first, and NewWatcher reads the file's times
  -- after that.
  unfoldable pub begin : Result E (Config F) → Option FileInfo → Result E (Watcher × Gateway M)
  unfolding start new_watcher
  begin loaded watched = do cfg ← loaded; gw ← start build cfg; ok (new_watcher watched, gw)

module _ {F X E M : Type 0} (build : Config F → Result E M) where
  -- The watcher's polls, one after the other.
  unfoldable pub poll_all : List (Disk (Config F) X) → Watcher × Gateway M → Watcher × Gateway M
  unfolding poll_once on_reload
  poll_all [] s = s
  poll_all (found ∷ later) s = poll_all later (poll_once (on_reload build) found s.0 s.1)

-- The routes that http.ServeMux makes of a configuration.
abbrev pub Routes : Float → Type 0
Routes fl = Request → Option (ℕ × ServiceHandler fl)

module _ (fl : Float) {D W : Type 0} (out : Outside fl.F D W)
    (not_routed : Handler (World fl.F D W)) (proxies : Option (Resolver out.ip))
    (trust : Bool) where
  -- Gateway.ServeHTTP: the mux is loaded when the request comes.
  unfoldable pub serve_http : Gateway (Routes fl) → Handler (World fl.F D W)
  unfolding serve
  serve_http g = serve fl out g.mux not_routed proxies trust
