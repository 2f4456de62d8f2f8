-- ===== src/Config/Load.antt =====
-- internal/config/config.go: a configuration from its file and the command line.
use go_lb.Base.{◌>>=◌, String, not, List, [], str_eq, if◌then◌else◌}
use go_lb.Base.{Result, ok, err}
use go_lb.Base.Int.{pos, leb_ℤ}
use go_lb.Config.{Config, defaults}
use go_lb.Config.File.{Library, FileConfig, apply_file_config}
use go_lb.Config.Cli.{Shell, apply_cli}

-- What reading the file and `yaml.Unmarshal` give for a path.
pub data Reading : Type 0 where
  unreadable : Reading
  unparsable : Reading
  parsed : FileConfig → Reading

module _ (lib : Library) (shell : Shell) (read : String → Reading) where
  unfoldable pub load_base : String → Result Config
  load_base path = if str_eq path "" then ok defaults else elim (read path) [
    | unreadable ↦ err "reading config file"
    | unparsable ↦ err "parsing config file"
    | parsed fc ↦ apply_file_config lib fc defaults
  ]

  unfoldable pub check_breaker : Config → Result Config
  check_breaker cfg =
      let cb = cfg.circuit_breaker in
      if not cb.enabled
      then ok cfg
      else if leb_ℤ cb.failure_threshold (pos 0)
      then err "invalid circuit_breaker.failure_threshold"
      else if leb_ℤ cb.success_threshold (pos 0)
      then err "invalid circuit_breaker.success_threshold"
      else if leb_ℤ cb.timeout (pos 0)
      then err "invalid circuit_breaker.timeout"
      else ok cfg

  unfoldable pub load : String → List String → Result Config
  load path args = do base ← load_base path; cfg ← apply_cli lib shell args base; check_breaker cfg

  unfoldable pub load_file : String → Result Config
  load_file path = load path []
