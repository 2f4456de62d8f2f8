-- ===== src/Examples/Configs.antt =====
-- internal/config: a file with a backend of weight 0 at a URL, and a port on the command line.
use go_lb.Base.{String, ◌≡◌, refl, true, false, none, some, List, [], ◌∷◌, ok}
use go_lb.Base.Int.{pos}
use go_lb.Config.{Config, defaults}
use go_lb.Config.File.{
  Library, FileConfig, file_pool, file_rate_limit, file_metrics, file_duration, file_health_check,
  file_circuit_breaker, file_min_version, file_tls, file_sticky_session, apply_file_config,
}
use go_lb.Config.Cli.{Shell, Flag, apply_flag, visit, check_version, apply_cli}
use go_lb.Config.Cli
use go_lb.Config.Load.{Reading, parsed, load_base, check_breaker, load, load_file}
use go_lb.Config.Flags.{Overridden}
use go_lb.Config.Precedence.{Base, load-Overridden, load_file-Base}

abbrev pub library : Library
library = record { parse_duration = λ s. ok (pos 5); trim_space = λ s. s }

abbrev flags_of : List String → List Flag
flags_of [] = []
flags_of (a ∷ rest) = Cli.port (pos 8080) ∷ []

abbrev pub shell : Shell
shell = record { split_comma = λ s. s ∷ []; parse_flags = λ args. ok (flags_of args) }

abbrev pub file_with : String → FileConfig
file_with url = record {
  server_port = pos 4040;
  algorithm = "";
  backends = record { url = url; weight = pos 0 } ∷ [];
  health_check = record {
    path = "/up";
    interval = "5ns";
    timeout = "";
    unhealthy_threshold = pos 0;
    healthy_threshold = pos 4;
  };
  admin_port = none;
  rate_limit = record {
    enabled = some true;
    requests_per_second = none;
    burst = some (pos 2);
    per_ip = none;
  };
  metrics = record { enabled = none; port = none };
  circuit_breaker = record {
    enabled = some true;
    failure_threshold = some (pos 1);
    success_threshold = none;
    timeout = "";
  };
  tls = record { enabled = none; cert_file = ""; key_file = ""; min_version = "1.3" };
  sticky_session = record { enabled = some true; cookie_name = ""; ttl = "" };
}

abbrev pub read : String → String → Reading
read url path = parsed (file_with url)

-- What the file makes of the defaults.
abbrev pub filed : String → Config
filed url = record {
  server = record { port = pos 4040 };
  pool = record { algorithm = "round_robin"; backends = record { url = url; weight = pos 1 } ∷ [] };
  health_check = record {
    path = "/up";
    interval = pos 5;
    timeout = pos 2_000_000_000;
    unhealthy_threshold = pos 3;
    healthy_threshold = pos 4;
  };
  admin = record { port = pos 9090 };
  rate_limit = record {
    enabled = true;
    requests_per_second = 0x408F400000000000;
    burst = pos 2;
    per_ip = true;
  };
  metrics = record { enabled = true; port = pos 0 };
  circuit_breaker = record {
    enabled = true;
    failure_threshold = pos 1;
    success_threshold = pos 2;
    timeout = pos 30_000_000_000;
  };
  tls = record { enabled = false; cert_file = ""; key_file = ""; min_version = "1.3" };
  sticky_session = record {
    enabled = true;
    cookie_name = "golb_backend";
    ttl = pos 3600_000_000_000;
  };
}

abbrev pub asked : Config
asked = record (filed "http://a") { server = record { port = pos 8080 } }

load_asked : load library shell (read "http://a") "golb.yaml" ("--port" ∷ "8080" ∷ []) ≡ ok asked
unfolding load load_base apply_cli visit apply_flag check_version check_breaker apply_file_config
    file_pool file_rate_limit file_metrics file_duration file_health_check file_circuit_breaker
    file_min_version file_tls file_sticky_session defaults
load_asked = refl

pub load_filed : (url : String) → load_file library shell (read url) "golb.yaml" ≡ ok (filed url)
unfolding load_file load load_base apply_cli visit apply_flag check_version check_breaker
    apply_file_config file_pool file_rate_limit file_metrics file_duration file_health_check
    file_circuit_breaker file_min_version file_tls file_sticky_session defaults
load_filed url = refl

load-Overridden_example :
    (base : Config) × (flags : List Flag) × (shell.parse_flags ("--port" ∷ "8080" ∷ []) ≡ ok flags)
    × Base library shell (read "http://a") "golb.yaml" base
    × Overridden library shell flags base asked
load-Overridden_example =
    load-Overridden library shell (read "http://a") "golb.yaml" ("--port" ∷ "8080" ∷ []) asked
      load_asked

load_file-Base_example : Base library shell (read "http://a") "golb.yaml" (filed "http://a")
load_file-Base_example =
    load_file-Base library shell (read "http://a") "golb.yaml" (filed "http://a") refl
      (load_filed "http://a")
