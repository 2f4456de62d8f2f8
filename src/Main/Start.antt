-- ===== src/Main/Start.antt =====
-- cmd/golb/main.go: `main` up to the listening servers, which gives the system that runs. What ends
-- the process with a message is an error. The logger, the servers and their muxes are left out.
use go_lb.Base.{
  ◌++◌, List, [], ◌∷◌, ℕ, suc, String, Bool, true, false, not, ◌&&◌, ◌||◌, Option, none, some, ◌==◌,
  str_eq, if◌then◌else◌, length, Result, ok, err, ◌>>=◌,
}
use go_lb.Base.Int.{ℤ, pos, leb_ℤ}
use go_lb.Config.{BackendConfig, Config}
use go_lb.Main.{extract_config_flag}
use go_lb.Config.File.{Library}
use go_lb.Config.Cli.{Shell}
use go_lb.Config.Load.{Reading, load}
use go_lb.Backend.{Url, Heap, Ref, Backend, store, url_of, set_alive}
use go_lb.Metrics.{Metrics, no_metrics, init, set_backend_up}
use go_lb.Pool.{ServerPool, add_backend, backends}
use go_lb.Algo
use go_lb.CircuitBreaker.Registry.{Registry, new_registry}
use go_lb.Sticky
use go_lb.Sticky.{Affinity, with_secure}
use go_lb.Health.{
  HealthChecker, new_health_checker, with_unhealthy_threshold, with_healthy_threshold,
}
use go_lb.RateLimit
use go_lb.RateLimit.{FloatOps, RateLimiter}
use go_lb.Proxy.{World, Setting, with_circuit_breaker, with_sticky_session, new_load_balancer}
use go_lb.Reload.{eq_ℤ}

-- What the code asks of its surroundings: `url.Parse`, whether `os.Stat` finds a file,
-- `strings.TrimSpace`, the operations on floats, whether the collectors register, and the clock.
pub record Platform : Type 0 where
  pub parse : String → Result Url
  pub accessible : String → Bool
  pub trim_space : String → String
  pub float : FloatOps
  pub registers : Bool
  pub now : ℕ

-- The two values of crypto/tls that are used.
pub data TlsVersion : Type 0 where
  version_tls12 version_tls13 : TlsVersion

-- The running parts. `world` holds what requests read and write, `current_interval` what the ticker
-- of the health checker was set to last, and `current` is `currentCfg`.
pub record System : Type 0 where
  pub world : World
  pub allocated : Ref
  pub checker : HealthChecker
  pub current_interval : ℤ
  pub limiter : Option RateLimiter
  pub cfg_path : String
  pub current : Config

-- The backends while they are registered.
pub record Members : Type 0 where
  pub heap : Heap
  pub allocated : Ref
  pub pool : ServerPool

abbrev unused : Backend
unused = record {
  url = record { scheme = ""; host = ""; text = "" };
  weight = pos 0;
  alive = false;
  active_conns = pos 0;
}

abbrev pub no_members : Members
no_members = record { heap = λ _. unused; allocated = 0; pool = [] }

-- An exit with a message if the condition holds.
abbrev pub exit_if : Bool → String → Result (Unit {0})
exit_if b message = if b then err message else ok tt

-- `&backend.Backend{URL: u, Weight: bc.Weight}`, made alive and added.
unfoldable pub enlist : Url → ℤ → Members → Members
enlist u weight m =
    let fresh : Backend = record {
      url = u;
      weight = weight;
      alive = false;
      active_conns = pos 0;
    } in
    let heap' = set_alive (store m.heap m.allocated fresh) m.allocated true in
    record {
      heap = heap';
      allocated = suc m.allocated;
      pool = add_backend heap' m.pool m.allocated;
    }

unfoldable pub mark_up : List Ref → Heap → Metrics → Metrics
mark_up [] h m = m
mark_up (b ∷ bs) h m = mark_up bs h (set_backend_up m (url_of h b) true)

abbrev pub affinity : Config → Affinity
affinity cfg =
    Sticky.new cfg.sticky_session.cookie_name cfg.sticky_session.ttl
      (with_secure cfg.tls.enabled ∷ [])

abbrev pub registry : Config → Registry
registry cfg = new_registry (record {
  failure_threshold = cfg.circuit_breaker.failure_threshold;
  success_threshold = cfg.circuit_breaker.success_threshold;
  timeout = cfg.circuit_breaker.timeout;
})

-- `proxyOpts`
unfoldable pub proxy_opts : Config → List Setting
proxy_opts cfg =
    (if cfg.circuit_breaker.enabled then with_circuit_breaker (registry cfg) ∷ [] else [])
    ++ (if cfg.sticky_session.enabled then with_sticky_session (affinity cfg) ∷ [] else [])

unfoldable pub checker_of : Config → HealthChecker
checker_of cfg =
    let h = cfg.health_check in
    new_health_checker h.path h.interval h.timeout (
      with_unhealthy_threshold h.unhealthy_threshold
      ∷ with_healthy_threshold h.healthy_threshold
      ∷ [])

-- The parts as they are put together.
abbrev pub started :
    String → Config → Algo.Algorithm → Members → Metrics → Option RateLimiter → System
started cfg_path cfg algo members metrics limiter = record {
  world =
      record (new_load_balancer no_members.heap no_metrics no_members.pool algo (proxy_opts cfg)) {
        heap = members.heap;
        pool = members.pool;
        metrics = metrics;
      };
  allocated = members.allocated;
  checker = checker_of cfg;
  current_interval = (checker_of cfg).interval;
  limiter = limiter;
  cfg_path = cfg_path;
  current = cfg;
}

module _ (os : Platform) where
  unfoldable pub parse_tls_version : String → TlsVersion
  parse_tls_version s = if str_eq (os.trim_space s) "1.3" then version_tls13 else version_tls12

  unfoldable pub check_tls : Config → Result (Unit {0})
  check_tls cfg =
      let tls = cfg.tls in
      if not tls.enabled
      then ok tt
      else if str_eq tls.cert_file "" || str_eq tls.key_file ""
      then err "TLS enabled but cert or key path is empty"
      else if not (os.accessible tls.cert_file)
      then err "TLS cert file not accessible"
      else exit_if (not (os.accessible tls.key_file)) "TLS key file not accessible"

  unfoldable pub check_sessions : Config → Result (Unit {0})
  check_sessions cfg =
      let session = cfg.sticky_session in
      if not session.enabled
      then ok tt
      else if str_eq (os.trim_space session.cookie_name) ""
      then err "sticky sessions enabled but cookie_name is empty"
      else exit_if (leb_ℤ session.ttl (pos 0)) "sticky sessions enabled but TTL must be > 0"

  -- The loop over the configured backends.
  unfoldable pub register : List BackendConfig → Members → Result Members
  register [] m = ok m
  register (bc ∷ bcs) m = elim (os.parse bc.url) [
    | err _ ↦ err "invalid backend URL"
    | ok u ↦
        let rest = register bcs (enlist u bc.weight m) in
        if not (str_eq u.scheme "http") && not (str_eq u.scheme "https")
        then err "backend URL must use http or https scheme"
        else if str_eq u.host ""
        then err "backend URL must include a host"
        else rest
  ]

  unfoldable pub start_metrics : Config → Members → Result Metrics
  start_metrics cfg m =
      if not cfg.metrics.enabled then ok no_metrics else elim (init os.registers no_metrics) [
        | none ↦ err "panic: failed to register a collector"
        | some metrics ↦ ok (mark_up (backends m.pool) m.heap metrics)
      ]

  unfoldable pub start_limiter : Config → Result (Option RateLimiter)
  start_limiter cfg =
      let r = cfg.rate_limit in
      if not r.enabled
      then ok none
      else do l ← RateLimit.new os.float r.requests_per_second r.burst r.per_ip os.now; ok (some l)

  unfoldable pub new_algorithm : Config → Result Algo.Algorithm
  new_algorithm cfg = elim (Algo.new cfg.pool.algorithm) [
    | none ↦ err "invalid algorithm"
    | some a ↦ ok a
  ]

  -- `main` after `config.Load`.
  unfoldable pub start : String → Config → Result System
  start cfg_path cfg = do
    _ ← exit_if (length cfg.pool.backends == 0) "no backends configured"
    _ ← check_tls cfg
    _ ← check_sessions cfg
    algo ← new_algorithm cfg
    members ← register cfg.pool.backends no_members
    _ ←
        exit_if
          (cfg.metrics.enabled && eq_ℤ cfg.metrics.port (pos 0) && eq_ℤ cfg.admin.port (pos 0))
          "metrics enabled but no endpoint available"
    metrics ← start_metrics cfg members
    limiter ← start_limiter cfg
    ok (started cfg_path cfg algo members metrics limiter)

  -- `main` from the arguments on.
  unfoldable pub launch : Library → Shell → (String → Reading) → List String → Result System
  launch lib shell read args =
      let flag = extract_config_flag args in
      elim flag.error [
        | some message ↦ err message
        | none ↦ do cfg ← load lib shell read flag.path flag.rest; start flag.path cfg
      ]
