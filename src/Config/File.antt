-- ===== src/Config/File.antt =====
-- internal/config/config.go: what a configuration file sets. The file is a value of `FileConfig`, as
-- YAML leaves it: a pointer is an option, and what is absent is 0 or empty. `time.ParseDuration` and
-- `strings.TrimSpace` are the standard library's, taken as parameters.
use go_lb.Base.{
  ◌>>=◌, zero, String, Bool, ◌||◌, Option, List, [], ◌∷◌, map, str_eq, if◌then◌else◌, get_or,
}
use go_lb.Base.{Result, ok, err}
use go_lb.Base.Int.{ℤ, pos, leb_ℤ}
use go_lb.Config.{
  Float64, Config, BackendConfig, PoolConfig, HealthCheckConfig, RateLimitConfig, MetricsConfig,
  CircuitBreakerConfig, TlsConfig, StickySessionConfig,
}

pub record FileBackend : Type 0 where
  pub url : String
  pub weight : ℤ

pub record FileHealthCheck : Type 0 where
  pub path : String
  pub interval : String
  pub timeout : String
  pub unhealthy_threshold : ℤ
  pub healthy_threshold : ℤ

pub record FileRateLimit : Type 0 where
  pub enabled : Option Bool
  pub requests_per_second : Option Float64
  pub burst : Option ℤ
  pub per_ip : Option Bool

pub record FileMetrics : Type 0 where
  pub enabled : Option Bool
  pub port : Option ℤ

pub record FileCircuitBreaker : Type 0 where
  pub enabled : Option Bool
  pub failure_threshold : Option ℤ
  pub success_threshold : Option ℤ
  pub timeout : String

pub record FileTls : Type 0 where
  pub enabled : Option Bool
  pub cert_file : String
  pub key_file : String
  pub min_version : String

pub record FileStickySession : Type 0 where
  pub enabled : Option Bool
  pub cookie_name : String
  pub ttl : String

pub record FileConfig : Type 0 where
  pub server_port : ℤ
  pub algorithm : String
  pub backends : List FileBackend
  pub health_check : FileHealthCheck
  pub admin_port : Option ℤ
  pub rate_limit : FileRateLimit
  pub metrics : FileMetrics
  pub circuit_breaker : FileCircuitBreaker
  pub tls : FileTls
  pub sticky_session : FileStickySession

pub record Library : Type 0 where
  pub parse_duration : String → Result ℤ
  pub trim_space : String → String

-- `if x != 0 { y = x }`, `if x != "" { y = x }`
abbrev pub nonzero_or : ℤ → ℤ → ℤ
nonzero_or (pos zero) y = y
nonzero_or x y = x

abbrev pub nonempty_or : String → String → String
nonempty_or x y = if str_eq x "" then y else x

-- A weight that is not positive becomes 1.
abbrev pub file_backend : FileBackend → BackendConfig
file_backend b = record { url = b.url; weight = if leb_ℤ b.weight (pos 0) then pos 1 else b.weight }

unfoldable pub file_pool : String → List FileBackend → PoolConfig → PoolConfig
file_pool algorithm bs cfg = record {
  algorithm = nonempty_or algorithm cfg.algorithm;
  backends = elim bs [ [] ↦ cfg.backends | b ∷ rest ↦ map file_backend (b ∷ rest) ];
}

unfoldable pub file_rate_limit : FileRateLimit → RateLimitConfig → RateLimitConfig
file_rate_limit fc cfg = record {
  enabled = get_or fc.enabled cfg.enabled;
  requests_per_second = get_or fc.requests_per_second cfg.requests_per_second;
  burst = get_or fc.burst cfg.burst;
  per_ip = get_or fc.per_ip cfg.per_ip;
}

unfoldable pub file_metrics : FileMetrics → MetricsConfig → MetricsConfig
file_metrics fc cfg = record {
  enabled = get_or fc.enabled cfg.enabled;
  port = get_or fc.port cfg.port;
}

abbrev pub allowed_version : String → Bool
allowed_version v = str_eq v "1.2" || str_eq v "1.3"

module _ (lib : Library) where
  -- A duration that is set and has to be valid.
  unfoldable pub file_duration : String → String → ℤ → Result ℤ
  file_duration name text old =
      if str_eq text ""
      then ok old
      else elim (lib.parse_duration text) [ ok d ↦ ok d | err cause ↦ err name ]

  unfoldable pub file_health_check : FileHealthCheck → HealthCheckConfig → Result HealthCheckConfig
  file_health_check fc cfg = do
    interval ← file_duration "invalid health_check.interval" fc.interval cfg.interval
    timeout ← file_duration "invalid health_check.timeout" fc.timeout cfg.timeout
    ok (record {
      path = nonempty_or fc.path cfg.path;
      interval = interval;
      timeout = timeout;
      unhealthy_threshold = nonzero_or fc.unhealthy_threshold cfg.unhealthy_threshold;
      healthy_threshold = nonzero_or fc.healthy_threshold cfg.healthy_threshold;
    })

  unfoldable pub file_circuit_breaker :
      FileCircuitBreaker → CircuitBreakerConfig → Result CircuitBreakerConfig
  file_circuit_breaker fc cfg = do
    timeout ← file_duration "invalid circuit_breaker.timeout" fc.timeout cfg.timeout
    ok (record {
      enabled = get_or fc.enabled cfg.enabled;
      failure_threshold = get_or fc.failure_threshold cfg.failure_threshold;
      success_threshold = get_or fc.success_threshold cfg.success_threshold;
      timeout = timeout;
    })

  unfoldable pub file_min_version : String → String → Result String
  file_min_version text old =
      let v = lib.trim_space text in
      if str_eq text ""
      then ok old
      else if allowed_version v
      then ok v
      else err "invalid tls.min_version"

  unfoldable pub file_tls : FileTls → TlsConfig → Result TlsConfig
  file_tls fc cfg = do
    min_version ← file_min_version fc.min_version cfg.min_version
    ok (record {
      enabled = get_or fc.enabled cfg.enabled;
      cert_file = nonempty_or fc.cert_file cfg.cert_file;
      key_file = nonempty_or fc.key_file cfg.key_file;
      min_version = min_version;
    })

  unfoldable pub file_sticky_session :
      FileStickySession → StickySessionConfig → Result StickySessionConfig
  file_sticky_session fc cfg = do
    ttl ← file_duration "invalid sticky_sessions.ttl" fc.ttl cfg.ttl
    ok (record {
      enabled = get_or fc.enabled cfg.enabled;
      cookie_name = nonempty_or fc.cookie_name cfg.cookie_name;
      ttl = ttl;
    })

  -- `applyFileConfig`. On an error the configuration is thrown away, so the model does not keep it.
  unfoldable pub apply_file_config : FileConfig → Config → Result Config
  apply_file_config fc cfg = do
    health_check ← file_health_check fc.health_check cfg.health_check
    circuit_breaker ← file_circuit_breaker fc.circuit_breaker cfg.circuit_breaker
    tls ← file_tls fc.tls cfg.tls
    sticky_session ← file_sticky_session fc.sticky_session cfg.sticky_session
    ok (record {
      server = record { port = nonzero_or fc.server_port cfg.server.port };
      pool = file_pool fc.algorithm fc.backends cfg.pool;
      health_check = health_check;
      admin = record { port = get_or fc.admin_port cfg.admin.port };
      rate_limit = file_rate_limit fc.rate_limit cfg.rate_limit;
      metrics = file_metrics fc.metrics cfg.metrics;
      circuit_breaker = circuit_breaker;
      tls = tls;
      sticky_session = sticky_session;
    })
