-- ===== src/Config/Single.antt =====
-- internal/config/config.go: one flag sets its setting, and leaves the others.
use go_lb.Base.{◌≡◌, refl, get_or}
use go_lb.Config.{Config}
use go_lb.Config.File.{Library}
use go_lb.Config.Cli.{
  Shell, Flag, port, algorithm, health_path, health_interval, health_timeout, admin_port,
  rl_enabled, rl_rps, rl_burst, rl_per_ip, metrics_enabled, metrics_port, cb_enabled,
  cb_failure_threshold, cb_success_threshold, cb_timeout, tls_enabled, tls_cert, tls_key,
  sticky_enabled, sticky_cookie_name, sticky_ttl, backends, tls_min_version, cli_backends,
  apply_flag,
}
use go_lb.Config.Values.{
  port_of, algorithm_of, health_path_of, health_interval_of, health_timeout_of, admin_port_of,
  rl_enabled_of, rl_rps_of, rl_burst_of, rl_per_ip_of, metrics_enabled_of, metrics_port_of,
  cb_enabled_of, cb_failure_threshold_of, cb_success_threshold_of, cb_timeout_of, tls_enabled_of,
  tls_cert_of, tls_key_of, sticky_enabled_of, sticky_cookie_name_of, sticky_ttl_of, backends_of,
  min_version_of,
}

module _ (lib : Library) (shell : Shell) where
  pub port_one :
      (f : Flag) (cfg : Config)
      → (apply_flag lib shell f cfg).server.port ≡ get_or (port_of f) cfg.server.port
  unfolding apply_flag
  port_one (port v) cfg = refl
  port_one _ cfg = refl

  pub algorithm_one :
      (f : Flag) (cfg : Config)
      → (apply_flag lib shell f cfg).pool.algorithm ≡ get_or (algorithm_of f) cfg.pool.algorithm
  unfolding apply_flag
  algorithm_one (algorithm v) cfg = refl
  algorithm_one _ cfg = refl

  pub health_path_one :
      (f : Flag) (cfg : Config)
      → (apply_flag lib shell f cfg).health_check.path
        ≡ get_or (health_path_of f) cfg.health_check.path
  unfolding apply_flag
  health_path_one (health_path v) cfg = refl
  health_path_one _ cfg = refl

  pub health_interval_one :
      (f : Flag) (cfg : Config)
      → (apply_flag lib shell f cfg).health_check.interval
        ≡ get_or (health_interval_of f) cfg.health_check.interval
  unfolding apply_flag
  health_interval_one (health_interval v) cfg = refl
  health_interval_one _ cfg = refl

  pub health_timeout_one :
      (f : Flag) (cfg : Config)
      → (apply_flag lib shell f cfg).health_check.timeout
        ≡ get_or (health_timeout_of f) cfg.health_check.timeout
  unfolding apply_flag
  health_timeout_one (health_timeout v) cfg = refl
  health_timeout_one _ cfg = refl

  pub admin_port_one :
      (f : Flag) (cfg : Config)
      → (apply_flag lib shell f cfg).admin.port ≡ get_or (admin_port_of f) cfg.admin.port
  unfolding apply_flag
  admin_port_one (admin_port v) cfg = refl
  admin_port_one _ cfg = refl

  pub rl_enabled_one :
      (f : Flag) (cfg : Config)
      → (apply_flag lib shell f cfg).rate_limit.enabled
        ≡ get_or (rl_enabled_of f) cfg.rate_limit.enabled
  unfolding apply_flag
  rl_enabled_one (rl_enabled v) cfg = refl
  rl_enabled_one _ cfg = refl

  pub rl_rps_one :
      (f : Flag) (cfg : Config)
      → (apply_flag lib shell f cfg).rate_limit.requests_per_second
        ≡ get_or (rl_rps_of f) cfg.rate_limit.requests_per_second
  unfolding apply_flag
  rl_rps_one (rl_rps v) cfg = refl
  rl_rps_one _ cfg = refl

  pub rl_burst_one :
      (f : Flag) (cfg : Config)
      → (apply_flag lib shell f cfg).rate_limit.burst ≡ get_or (rl_burst_of f) cfg.rate_limit.burst
  unfolding apply_flag
  rl_burst_one (rl_burst v) cfg = refl
  rl_burst_one _ cfg = refl

  pub rl_per_ip_one :
      (f : Flag) (cfg : Config)
      → (apply_flag lib shell f cfg).rate_limit.per_ip
        ≡ get_or (rl_per_ip_of f) cfg.rate_limit.per_ip
  unfolding apply_flag
  rl_per_ip_one (rl_per_ip v) cfg = refl
  rl_per_ip_one _ cfg = refl

  pub metrics_enabled_one :
      (f : Flag) (cfg : Config)
      → (apply_flag lib shell f cfg).metrics.enabled
        ≡ get_or (metrics_enabled_of f) cfg.metrics.enabled
  unfolding apply_flag
  metrics_enabled_one (metrics_enabled v) cfg = refl
  metrics_enabled_one _ cfg = refl

  pub metrics_port_one :
      (f : Flag) (cfg : Config)
      → (apply_flag lib shell f cfg).metrics.port ≡ get_or (metrics_port_of f) cfg.metrics.port
  unfolding apply_flag
  metrics_port_one (metrics_port v) cfg = refl
  metrics_port_one _ cfg = refl

  pub cb_enabled_one :
      (f : Flag) (cfg : Config)
      → (apply_flag lib shell f cfg).circuit_breaker.enabled
        ≡ get_or (cb_enabled_of f) cfg.circuit_breaker.enabled
  unfolding apply_flag
  cb_enabled_one (cb_enabled v) cfg = refl
  cb_enabled_one _ cfg = refl

  pub cb_failure_threshold_one :
      (f : Flag) (cfg : Config)
      → (apply_flag lib shell f cfg).circuit_breaker.failure_threshold
        ≡ get_or (cb_failure_threshold_of f) cfg.circuit_breaker.failure_threshold
  unfolding apply_flag
  cb_failure_threshold_one (cb_failure_threshold v) cfg = refl
  cb_failure_threshold_one _ cfg = refl

  pub cb_success_threshold_one :
      (f : Flag) (cfg : Config)
      → (apply_flag lib shell f cfg).circuit_breaker.success_threshold
        ≡ get_or (cb_success_threshold_of f) cfg.circuit_breaker.success_threshold
  unfolding apply_flag
  cb_success_threshold_one (cb_success_threshold v) cfg = refl
  cb_success_threshold_one _ cfg = refl

  pub cb_timeout_one :
      (f : Flag) (cfg : Config)
      → (apply_flag lib shell f cfg).circuit_breaker.timeout
        ≡ get_or (cb_timeout_of f) cfg.circuit_breaker.timeout
  unfolding apply_flag
  cb_timeout_one (cb_timeout v) cfg = refl
  cb_timeout_one _ cfg = refl

  pub tls_enabled_one :
      (f : Flag) (cfg : Config)
      → (apply_flag lib shell f cfg).tls.enabled ≡ get_or (tls_enabled_of f) cfg.tls.enabled
  unfolding apply_flag
  tls_enabled_one (tls_enabled v) cfg = refl
  tls_enabled_one _ cfg = refl

  pub tls_cert_one :
      (f : Flag) (cfg : Config)
      → (apply_flag lib shell f cfg).tls.cert_file ≡ get_or (tls_cert_of f) cfg.tls.cert_file
  unfolding apply_flag
  tls_cert_one (tls_cert v) cfg = refl
  tls_cert_one _ cfg = refl

  pub tls_key_one :
      (f : Flag) (cfg : Config)
      → (apply_flag lib shell f cfg).tls.key_file ≡ get_or (tls_key_of f) cfg.tls.key_file
  unfolding apply_flag
  tls_key_one (tls_key v) cfg = refl
  tls_key_one _ cfg = refl

  pub sticky_enabled_one :
      (f : Flag) (cfg : Config)
      → (apply_flag lib shell f cfg).sticky_session.enabled
        ≡ get_or (sticky_enabled_of f) cfg.sticky_session.enabled
  unfolding apply_flag
  sticky_enabled_one (sticky_enabled v) cfg = refl
  sticky_enabled_one _ cfg = refl

  pub sticky_cookie_name_one :
      (f : Flag) (cfg : Config)
      → (apply_flag lib shell f cfg).sticky_session.cookie_name
        ≡ get_or (sticky_cookie_name_of f) cfg.sticky_session.cookie_name
  unfolding apply_flag
  sticky_cookie_name_one (sticky_cookie_name v) cfg = refl
  sticky_cookie_name_one _ cfg = refl

  pub sticky_ttl_one :
      (f : Flag) (cfg : Config)
      → (apply_flag lib shell f cfg).sticky_session.ttl
        ≡ get_or (sticky_ttl_of f) cfg.sticky_session.ttl
  unfolding apply_flag
  sticky_ttl_one (sticky_ttl v) cfg = refl
  sticky_ttl_one _ cfg = refl

  pub backends_one :
      (f : Flag) (cfg : Config)
      → (apply_flag lib shell f cfg).pool.backends
        ≡ get_or
            (backends_of (λ raw. cli_backends lib.trim_space (shell.split_comma raw)) f)
            cfg.pool.backends
  unfolding apply_flag
  backends_one (backends raw) cfg = refl
  backends_one _ cfg = refl

  pub min_version_one :
      (f : Flag) (cfg : Config)
      → (apply_flag lib shell f cfg).tls.min_version
        ≡ get_or (min_version_of lib.trim_space f) cfg.tls.min_version
  unfolding apply_flag
  min_version_one (tls_min_version v) cfg = refl
  min_version_one _ cfg = refl
