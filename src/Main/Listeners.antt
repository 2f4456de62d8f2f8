-- ===== src/Main/Listeners.antt =====
-- cmd/golb/main.go: the servers that `main` starts, and the version of TLS that it asks for.
use go_lb.Base.{
  ℕ, suc, String, ◌≡◌, Bool, true, false, not, ◌&&◌, List, [], ◌∷◌, ◌++◌, arith, if◌then◌else◌, ok,
}
use go_lb.Base.Int.{ℤ, pos}
use go_lb.Config.{Config}
use go_lb.Reload.{eq_ℤ}
use go_lb.Main.Start.{Platform, System, start}
use go_lb.Main.Ready.{start-Steps}

-- A server with its port: that of the balancer, that of the admin API, which may serve `/metrics` as
-- well, and one for `/metrics` alone.
pub data Listener : Type 0 where
  main_srv : (port : ℤ) → Listener
  admin_srv : (port : ℤ) (with_metrics : Bool) → Listener
  metrics_srv : (port : ℤ) → Listener

-- `adminSrv` and `metricsSrv`, which may be nil.
abbrev pub admin_server : Config → List Listener
admin_server cfg =
    if not (eq_ℤ cfg.admin.port (pos 0))
    then admin_srv cfg.admin.port (cfg.metrics.enabled && eq_ℤ cfg.metrics.port (pos 0)) ∷ []
    else []

abbrev pub metrics_server : Config → List Listener
metrics_server cfg =
    if cfg.metrics.enabled && not (eq_ℤ cfg.metrics.port (pos 0))
    then metrics_srv cfg.metrics.port ∷ []
    else []

unfoldable pub listeners : Config → List Listener
listeners cfg = main_srv cfg.server.port ∷ admin_server cfg ++ metrics_server cfg

-- How many servers serve `/metrics`.
abbrev pub metrics_endpoints : List Listener → ℕ
metrics_endpoints [] = 0
metrics_endpoints (main_srv _ ∷ ls) = metrics_endpoints ls
metrics_endpoints (admin_srv _ true ∷ ls) = suc (metrics_endpoints ls)
metrics_endpoints (admin_srv _ false ∷ ls) = metrics_endpoints ls
metrics_endpoints (metrics_srv _ ∷ ls) = suc (metrics_endpoints ls)

-- After a start that ends well, `/metrics` has exactly one server if metrics are on, and none if they
-- are off.
pub start-listeners :
    (os : Platform) (cfg_path : String) (cfg : Config) (s : System)
    → start os cfg_path cfg ≡ ok s
    → metrics_endpoints (listeners cfg) ≡ (if cfg.metrics.enabled then 1 else 0)
unfolding listeners
start-listeners os cfg_path cfg s e =
    let t = start-Steps os cfg_path cfg s e in ground (arith, t.endpoint)
