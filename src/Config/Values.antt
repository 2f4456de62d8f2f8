-- ===== src/Config/Values.antt =====
-- internal/config/config.go: the value that a flag sets, one selector for each setting.
use go_lb.Base.{String, Bool, Option, none, some, List, [], ◌∷◌}
use go_lb.Base.Int.{ℤ}
use go_lb.Config.{Float64, BackendConfig}
use go_lb.Config.Cli.{
  Flag, port, algorithm, health_path, health_interval, health_timeout, admin_port, rl_enabled,
  rl_rps, rl_burst, rl_per_ip, metrics_enabled, metrics_port, cb_enabled, cb_failure_threshold,
  cb_success_threshold, cb_timeout, tls_enabled, tls_cert, tls_key, sticky_enabled,
  sticky_cookie_name, sticky_ttl, backends, tls_min_version,
}

-- What the last flag of a kind says.
abbrev pub last_of {ℓ} : {A : Type ℓ} → (Flag → Option A) → List Flag → Option A
last_of g [] = none
last_of g (f ∷ fs) = elim (last_of g fs) [ none ↦ g f | some a ↦ some a ]

abbrev pub port_of : Flag → Option ℤ
port_of (port v) = some v
port_of _ = none

abbrev pub algorithm_of : Flag → Option String
algorithm_of (algorithm v) = some v
algorithm_of _ = none

abbrev pub health_path_of : Flag → Option String
health_path_of (health_path v) = some v
health_path_of _ = none

abbrev pub health_interval_of : Flag → Option ℤ
health_interval_of (health_interval v) = some v
health_interval_of _ = none

abbrev pub health_timeout_of : Flag → Option ℤ
health_timeout_of (health_timeout v) = some v
health_timeout_of _ = none

abbrev pub admin_port_of : Flag → Option ℤ
admin_port_of (admin_port v) = some v
admin_port_of _ = none

abbrev pub rl_enabled_of : Flag → Option Bool
rl_enabled_of (rl_enabled v) = some v
rl_enabled_of _ = none

abbrev pub rl_rps_of : Flag → Option Float64
rl_rps_of (rl_rps v) = some v
rl_rps_of _ = none

abbrev pub rl_burst_of : Flag → Option ℤ
rl_burst_of (rl_burst v) = some v
rl_burst_of _ = none

abbrev pub rl_per_ip_of : Flag → Option Bool
rl_per_ip_of (rl_per_ip v) = some v
rl_per_ip_of _ = none

abbrev pub metrics_enabled_of : Flag → Option Bool
metrics_enabled_of (metrics_enabled v) = some v
metrics_enabled_of _ = none

abbrev pub metrics_port_of : Flag → Option ℤ
metrics_port_of (metrics_port v) = some v
metrics_port_of _ = none

abbrev pub cb_enabled_of : Flag → Option Bool
cb_enabled_of (cb_enabled v) = some v
cb_enabled_of _ = none

abbrev pub cb_failure_threshold_of : Flag → Option ℤ
cb_failure_threshold_of (cb_failure_threshold v) = some v
cb_failure_threshold_of _ = none

abbrev pub cb_success_threshold_of : Flag → Option ℤ
cb_success_threshold_of (cb_success_threshold v) = some v
cb_success_threshold_of _ = none

abbrev pub cb_timeout_of : Flag → Option ℤ
cb_timeout_of (cb_timeout v) = some v
cb_timeout_of _ = none

abbrev pub tls_enabled_of : Flag → Option Bool
tls_enabled_of (tls_enabled v) = some v
tls_enabled_of _ = none

abbrev pub tls_cert_of : Flag → Option String
tls_cert_of (tls_cert v) = some v
tls_cert_of _ = none

abbrev pub tls_key_of : Flag → Option String
tls_key_of (tls_key v) = some v
tls_key_of _ = none

abbrev pub sticky_enabled_of : Flag → Option Bool
sticky_enabled_of (sticky_enabled v) = some v
sticky_enabled_of _ = none

abbrev pub sticky_cookie_name_of : Flag → Option String
sticky_cookie_name_of (sticky_cookie_name v) = some v
sticky_cookie_name_of _ = none

abbrev pub sticky_ttl_of : Flag → Option ℤ
sticky_ttl_of (sticky_ttl v) = some v
sticky_ttl_of _ = none

abbrev pub backends_of : (String → List BackendConfig) → Flag → Option (List BackendConfig)
backends_of read (backends raw) = some (read raw)
backends_of read _ = none

abbrev pub min_version_of : (String → String) → Flag → Option String
min_version_of trim (tls_min_version v) = some (trim v)
min_version_of trim _ = none
