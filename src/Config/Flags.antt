-- ===== src/Config/Flags.antt =====
-- internal/config/config.go: the settings after all flags of the command line.
use go_lb.Base.{◌≡◌, refl, Option, List, [], ◌∷◌, arith, get_or}
use go_lb.Config.{Config}
use go_lb.Config.File.{Library}
use go_lb.Config.Cli.{Shell, Flag, cli_backends, apply_flag, visit}
use go_lb.Config.Values.{
  last_of, port_of, algorithm_of, health_path_of, health_interval_of, health_timeout_of,
  admin_port_of, rl_enabled_of, rl_rps_of, rl_burst_of, rl_per_ip_of, metrics_enabled_of,
  metrics_port_of, cb_enabled_of, cb_failure_threshold_of, cb_success_threshold_of, cb_timeout_of,
  tls_enabled_of, tls_cert_of, tls_key_of, sticky_enabled_of, sticky_cookie_name_of, sticky_ttl_of,
  backends_of, min_version_of,
}
use go_lb.Config.Single.{
  port_one, algorithm_one, health_path_one, health_interval_one, health_timeout_one, admin_port_one,
  rl_enabled_one, rl_rps_one, rl_burst_one, rl_per_ip_one, metrics_enabled_one, metrics_port_one,
  cb_enabled_one, cb_failure_threshold_one, cb_success_threshold_one, cb_timeout_one,
  tls_enabled_one, tls_cert_one, tls_key_one, sticky_enabled_one, sticky_cookie_name_one,
  sticky_ttl_one, backends_one, min_version_one,
}

module _ (lib : Library) (shell : Shell) where
  -- Every setting is what the last flag for it says, or what it was before if there is none.
  pub record Overridden (fs : List Flag) (base cfg : Config) : Type 0 where
    pub port_set : cfg.server.port ≡ get_or (last_of port_of fs) base.server.port
    pub algorithm_set : cfg.pool.algorithm ≡ get_or (last_of algorithm_of fs) base.pool.algorithm
    pub health_path_set :
        cfg.health_check.path ≡ get_or (last_of health_path_of fs) base.health_check.path
    pub health_interval_set :
        cfg.health_check.interval
        ≡ get_or (last_of health_interval_of fs) base.health_check.interval
    pub health_timeout_set :
        cfg.health_check.timeout ≡ get_or (last_of health_timeout_of fs) base.health_check.timeout
    pub admin_port_set : cfg.admin.port ≡ get_or (last_of admin_port_of fs) base.admin.port
    pub rl_enabled_set :
        cfg.rate_limit.enabled ≡ get_or (last_of rl_enabled_of fs) base.rate_limit.enabled
    pub rl_rps_set :
        cfg.rate_limit.requests_per_second
        ≡ get_or (last_of rl_rps_of fs) base.rate_limit.requests_per_second
    pub rl_burst_set : cfg.rate_limit.burst ≡ get_or (last_of rl_burst_of fs) base.rate_limit.burst
    pub rl_per_ip_set :
        cfg.rate_limit.per_ip ≡ get_or (last_of rl_per_ip_of fs) base.rate_limit.per_ip
    pub metrics_enabled_set :
        cfg.metrics.enabled ≡ get_or (last_of metrics_enabled_of fs) base.metrics.enabled
    pub metrics_port_set : cfg.metrics.port ≡ get_or (last_of metrics_port_of fs) base.metrics.port
    pub cb_enabled_set :
        cfg.circuit_breaker.enabled ≡ get_or (last_of cb_enabled_of fs) base.circuit_breaker.enabled
    pub cb_failure_threshold_set :
        cfg.circuit_breaker.failure_threshold
        ≡ get_or (last_of cb_failure_threshold_of fs) base.circuit_breaker.failure_threshold
    pub cb_success_threshold_set :
        cfg.circuit_breaker.success_threshold
        ≡ get_or (last_of cb_success_threshold_of fs) base.circuit_breaker.success_threshold
    pub cb_timeout_set :
        cfg.circuit_breaker.timeout ≡ get_or (last_of cb_timeout_of fs) base.circuit_breaker.timeout
    pub tls_enabled_set : cfg.tls.enabled ≡ get_or (last_of tls_enabled_of fs) base.tls.enabled
    pub tls_cert_set : cfg.tls.cert_file ≡ get_or (last_of tls_cert_of fs) base.tls.cert_file
    pub tls_key_set : cfg.tls.key_file ≡ get_or (last_of tls_key_of fs) base.tls.key_file
    pub sticky_enabled_set :
        cfg.sticky_session.enabled
        ≡ get_or (last_of sticky_enabled_of fs) base.sticky_session.enabled
    pub sticky_cookie_name_set :
        cfg.sticky_session.cookie_name
        ≡ get_or (last_of sticky_cookie_name_of fs) base.sticky_session.cookie_name
    pub sticky_ttl_set :
        cfg.sticky_session.ttl ≡ get_or (last_of sticky_ttl_of fs) base.sticky_session.ttl
    pub backends_set :
        cfg.pool.backends
        ≡ get_or
            (last_of (backends_of (λ raw. cli_backends lib.trim_space (shell.split_comma raw))) fs)
            base.pool.backends
    pub min_version_set :
        cfg.tls.min_version
        ≡ get_or (last_of (min_version_of lib.trim_space) fs) base.tls.min_version

  visit-setting {ℓ} :
      {A : Type ℓ} (setting : Config → A) (g : Flag → Option A)
      → ((f : Flag) (cfg : Config)
          → setting (apply_flag lib shell f cfg) ≡ get_or (g f) (setting cfg))
      → (fs : List Flag) (cfg : Config)
      → setting (visit lib shell fs cfg) ≡ get_or (last_of g fs) (setting cfg)
  unfolding visit
  visit-setting setting g one [] cfg = refl
  visit-setting setting g one (f ∷ fs) cfg =
      ground (arith, visit-setting setting g one fs (apply_flag lib shell f cfg), one f cfg)

  pub visit-Overridden :
      (fs : List Flag) (base : Config) → Overridden fs base (visit lib shell fs base)
  visit-Overridden fs base = record {
    port_set = visit-setting (λ c. c.server.port) port_of (port_one lib shell) fs base;
    algorithm_set =
        visit-setting (λ c. c.pool.algorithm) algorithm_of (algorithm_one lib shell) fs base;
    health_path_set =
        visit-setting (λ c. c.health_check.path) health_path_of (health_path_one lib shell) fs base;
    health_interval_set =
        visit-setting (λ c. c.health_check.interval) health_interval_of
          (health_interval_one lib shell) fs base;
    health_timeout_set =
        visit-setting (λ c. c.health_check.timeout) health_timeout_of (health_timeout_one lib shell)
          fs base;
    admin_port_set =
        visit-setting (λ c. c.admin.port) admin_port_of (admin_port_one lib shell) fs base;
    rl_enabled_set =
        visit-setting (λ c. c.rate_limit.enabled) rl_enabled_of (rl_enabled_one lib shell) fs base;
    rl_rps_set =
        visit-setting (λ c. c.rate_limit.requests_per_second) rl_rps_of (rl_rps_one lib shell) fs
          base;
    rl_burst_set =
        visit-setting (λ c. c.rate_limit.burst) rl_burst_of (rl_burst_one lib shell) fs base;
    rl_per_ip_set =
        visit-setting (λ c. c.rate_limit.per_ip) rl_per_ip_of (rl_per_ip_one lib shell) fs base;
    metrics_enabled_set =
        visit-setting (λ c. c.metrics.enabled) metrics_enabled_of (metrics_enabled_one lib shell) fs
          base;
    metrics_port_set =
        visit-setting (λ c. c.metrics.port) metrics_port_of (metrics_port_one lib shell) fs base;
    cb_enabled_set =
        visit-setting (λ c. c.circuit_breaker.enabled) cb_enabled_of (cb_enabled_one lib shell) fs
          base;
    cb_failure_threshold_set =
        visit-setting (λ c. c.circuit_breaker.failure_threshold) cb_failure_threshold_of
          (cb_failure_threshold_one lib shell) fs base;
    cb_success_threshold_set =
        visit-setting (λ c. c.circuit_breaker.success_threshold) cb_success_threshold_of
          (cb_success_threshold_one lib shell) fs base;
    cb_timeout_set =
        visit-setting (λ c. c.circuit_breaker.timeout) cb_timeout_of (cb_timeout_one lib shell) fs
          base;
    tls_enabled_set =
        visit-setting (λ c. c.tls.enabled) tls_enabled_of (tls_enabled_one lib shell) fs base;
    tls_cert_set =
        visit-setting (λ c. c.tls.cert_file) tls_cert_of (tls_cert_one lib shell) fs base;
    tls_key_set = visit-setting (λ c. c.tls.key_file) tls_key_of (tls_key_one lib shell) fs base;
    sticky_enabled_set =
        visit-setting (λ c. c.sticky_session.enabled) sticky_enabled_of
          (sticky_enabled_one lib shell) fs base;
    sticky_cookie_name_set =
        visit-setting (λ c. c.sticky_session.cookie_name) sticky_cookie_name_of
          (sticky_cookie_name_one lib shell) fs base;
    sticky_ttl_set =
        visit-setting (λ c. c.sticky_session.ttl) sticky_ttl_of (sticky_ttl_one lib shell) fs base;
    backends_set =
        visit-setting (λ c. c.pool.backends)
          (backends_of (λ raw. cli_backends lib.trim_space (shell.split_comma raw)))
          (backends_one lib shell) fs base;
    min_version_set =
        visit-setting (λ c. c.tls.min_version) (min_version_of lib.trim_space)
          (min_version_one lib shell) fs base;
  }
