-- ===== src/Config.antt =====
-- internal/config/config.go: the configuration and its defaults. Durations are in nanoseconds, and a
-- float64 is its bit pattern.
pub mod File
pub mod Cli
pub mod Load
pub mod Valid
pub mod Settings
pub mod Applied
mod Values
mod Single
pub mod Flags
pub mod Precedence
use go_lb.Base.{ℕ, String, Bool, true, false, List, [], ◌*◌}
use go_lb.Base.Int.{ℤ, pos}

abbrev pub Float64 : Type 0
Float64 = ℕ

pub record ServerConfig : Type 0 where
  pub port : ℤ

pub record BackendConfig : Type 0 where
  pub url : String
  pub weight : ℤ

pub record PoolConfig : Type 0 where
  pub algorithm : String
  pub backends : List BackendConfig

pub record HealthCheckConfig : Type 0 where
  pub path : String
  pub interval : ℤ
  pub timeout : ℤ
  pub unhealthy_threshold : ℤ
  pub healthy_threshold : ℤ

pub record AdminConfig : Type 0 where
  pub port : ℤ

pub record RateLimitConfig : Type 0 where
  pub enabled : Bool
  pub requests_per_second : Float64
  pub burst : ℤ
  pub per_ip : Bool

pub record MetricsConfig : Type 0 where
  pub enabled : Bool
  pub port : ℤ

pub record CircuitBreakerConfig : Type 0 where
  pub enabled : Bool
  pub failure_threshold : ℤ
  pub success_threshold : ℤ
  pub timeout : ℤ

pub record TlsConfig : Type 0 where
  pub enabled : Bool
  pub cert_file : String
  pub key_file : String
  pub min_version : String

pub record StickySessionConfig : Type 0 where
  pub enabled : Bool
  pub cookie_name : String
  pub ttl : ℤ

pub record Config : Type 0 where
  pub server : ServerConfig
  pub pool : PoolConfig
  pub health_check : HealthCheckConfig
  pub admin : AdminConfig
  pub rate_limit : RateLimitConfig
  pub metrics : MetricsConfig
  pub circuit_breaker : CircuitBreakerConfig
  pub tls : TlsConfig
  pub sticky_session : StickySessionConfig

-- `1000.0`
abbrev pub float_1000 : Float64
float_1000 = 0x408F400000000000

abbrev pub seconds : ℕ → ℤ
seconds n = pos (n * 1_000_000_000)

unfoldable pub defaults : Config
defaults = record {
  server = record { port = pos 3030 };
  pool = record { algorithm = "round_robin"; backends = [] };
  health_check = record {
    path = "/health";
    interval = seconds 10;
    timeout = seconds 2;
    unhealthy_threshold = pos 3;
    healthy_threshold = pos 2;
  };
  admin = record { port = pos 9090 };
  rate_limit = record {
    enabled = false;
    requests_per_second = float_1000;
    burst = pos 200;
    per_ip = true;
  };
  metrics = record { enabled = true; port = pos 0 };
  circuit_breaker = record {
    enabled = false;
    failure_threshold = pos 5;
    success_threshold = pos 2;
    timeout = seconds 30;
  };
  tls = record { enabled = false; cert_file = ""; key_file = ""; min_version = "1.2" };
  sticky_session = record { enabled = false; cookie_name = "golb_backend"; ttl = seconds 3600 };
}
