-- ===== src/Config/Cli.antt =====
-- internal/config/config.go: what the command line sets. The flags that were given, with their
-- values, are what `fs.Parse` has made of the arguments, in the order in which `fs.Visit` goes
-- through them.
use go_lb.Base.{String, Bool, not, ◌&&◌, List, [], ◌∷◌, str_eq, if◌then◌else◌}
use go_lb.Base.{Result, ok, err}
use go_lb.Base.Int.{ℤ, pos}
use go_lb.Config.{Float64, Config, BackendConfig}
use go_lb.Config.File.{Library, allowed_version}

pub data Flag : Type 0 where
  port : ℤ → Flag
  backends : String → Flag
  algorithm : String → Flag
  health_path : String → Flag
  health_interval : ℤ → Flag
  health_timeout : ℤ → Flag
  admin_port : ℤ → Flag
  rl_enabled : Bool → Flag
  rl_rps : Float64 → Flag
  rl_burst : ℤ → Flag
  rl_per_ip : Bool → Flag
  metrics_enabled : Bool → Flag
  metrics_port : ℤ → Flag
  cb_enabled : Bool → Flag
  cb_failure_threshold : ℤ → Flag
  cb_success_threshold : ℤ → Flag
  cb_timeout : ℤ → Flag
  tls_enabled : Bool → Flag
  tls_cert : String → Flag
  tls_key : String → Flag
  tls_min_version : String → Flag
  sticky_enabled : Bool → Flag
  sticky_cookie_name : String → Flag
  sticky_ttl : ℤ → Flag

-- `strings.Split` at commas, and `fs.Parse`.
pub record Shell : Type 0 where
  pub split_comma : String → List String
  pub parse_flags : List String → Result (List Flag)

-- The loop over the texts between commas.
unfoldable pub cli_backends : (String → String) → List String → List BackendConfig
cli_backends trim [] = []
cli_backends trim (raw ∷ rest) =
    let more = cli_backends trim rest in
    if str_eq (trim raw) "" then more else record { url = trim raw; weight = pos 1 } ∷ more

module _ (lib : Library) (shell : Shell) where
  -- The switch on the name of a flag.
  unfoldable pub apply_flag : Flag → Config → Config
  apply_flag (port v) cfg = record cfg { server = record cfg.server { port = v } }
  apply_flag (backends raw) cfg = record cfg {
    pool = record cfg.pool { backends = cli_backends lib.trim_space (shell.split_comma raw) };
  }
  apply_flag (algorithm v) cfg = record cfg { pool = record cfg.pool { algorithm = v } }
  apply_flag (health_path v) cfg = record cfg {
    health_check = record cfg.health_check { path = v };
  }
  apply_flag (health_interval v) cfg = record cfg {
    health_check = record cfg.health_check { interval = v };
  }
  apply_flag (health_timeout v) cfg = record cfg {
    health_check = record cfg.health_check { timeout = v };
  }
  apply_flag (admin_port v) cfg = record cfg { admin = record cfg.admin { port = v } }
  apply_flag (rl_enabled v) cfg = record cfg { rate_limit = record cfg.rate_limit { enabled = v } }
  apply_flag (rl_rps v) cfg = record cfg {
    rate_limit = record cfg.rate_limit { requests_per_second = v };
  }
  apply_flag (rl_burst v) cfg = record cfg { rate_limit = record cfg.rate_limit { burst = v } }
  apply_flag (rl_per_ip v) cfg = record cfg { rate_limit = record cfg.rate_limit { per_ip = v } }
  apply_flag (metrics_enabled v) cfg = record cfg { metrics = record cfg.metrics { enabled = v } }
  apply_flag (metrics_port v) cfg = record cfg { metrics = record cfg.metrics { port = v } }
  apply_flag (cb_enabled v) cfg = record cfg {
    circuit_breaker = record cfg.circuit_breaker { enabled = v };
  }
  apply_flag (cb_failure_threshold v) cfg = record cfg {
    circuit_breaker = record cfg.circuit_breaker { failure_threshold = v };
  }
  apply_flag (cb_success_threshold v) cfg = record cfg {
    circuit_breaker = record cfg.circuit_breaker { success_threshold = v };
  }
  apply_flag (cb_timeout v) cfg = record cfg {
    circuit_breaker = record cfg.circuit_breaker { timeout = v };
  }
  apply_flag (tls_enabled v) cfg = record cfg { tls = record cfg.tls { enabled = v } }
  apply_flag (tls_cert v) cfg = record cfg { tls = record cfg.tls { cert_file = v } }
  apply_flag (tls_key v) cfg = record cfg { tls = record cfg.tls { key_file = v } }
  apply_flag (tls_min_version v) cfg = record cfg {
    tls = record cfg.tls { min_version = lib.trim_space v };
  }
  apply_flag (sticky_enabled v) cfg = record cfg {
    sticky_session = record cfg.sticky_session { enabled = v };
  }
  apply_flag (sticky_cookie_name v) cfg = record cfg {
    sticky_session = record cfg.sticky_session { cookie_name = v };
  }
  apply_flag (sticky_ttl v) cfg = record cfg {
    sticky_session = record cfg.sticky_session { ttl = v };
  }

  -- `fs.Visit`
  unfoldable pub visit : List Flag → Config → Config
  visit [] cfg = cfg
  visit (f ∷ fs) cfg = visit fs (apply_flag f cfg)

  unfoldable pub check_version : Config → Result Config
  check_version cfg =
      let v = cfg.tls.min_version in
      if not (str_eq v "") && not (allowed_version v) then err "invalid tls.min_version" else ok cfg

  unfoldable pub apply_cli : List String → Config → Result Config
  apply_cli args cfg = elim (shell.parse_flags args) [
    | err cause ↦ err "parsing CLI flags"
    | ok flags ↦ check_version (visit flags cfg)
  ]
