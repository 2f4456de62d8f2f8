-- ===== src/Config/Precedence.antt =====
-- internal/config/config.go: which of the command line, the file and the defaults wins.
use go_lb.Base.{
  String, ◌≡◌, sym, ◌∙◌, subst, ◌≢◌, inl, inr, List, [], arith, eq_iff, str_eq, Bool-cases, ok,
  Result-cases, ok-injective, bind-ok,
}
use go_lb.Config.{Config, defaults}
use go_lb.Config.File.{Library, FileConfig}
use go_lb.Config.Cli.{Shell, Flag, apply_cli, visit}
use go_lb.Config.Load.{Reading, parsed, load_base, load, load_file, check_breaker}
use go_lb.Config.Valid.{check_version-ok, Reading-cases, check_breaker-same}
use go_lb.Config.Settings.{Says}
use go_lb.Config.Applied.{apply_file_config-Says}
use go_lb.Config.Flags.{Overridden, visit-Overridden}

module _ (lib : Library) (shell : Shell) (read : String → Reading) where
  -- Where the settings come from that no flag sets.
  pub data Base (path : String) (base : Config) : Type 0 where
    no_file : path ≡ "" → base ≡ defaults → Base path base
    from_file :
        (fc : FileConfig)
        → path ≢ ""
        → read path ≡ parsed fc
        → Says lib fc defaults base
        → Base path base

  load_base-Base :
      (path : String) (base : Config) → load_base lib shell read path ≡ ok base → Base path base
  unfolding load_base
  load_base-Base path base e = elim (Bool-cases (str_eq path "")) [
    | inl none_given ↦
        no_file ((eq_iff path "").0 none_given)
          (sym (ok-injective (rw (none_given, load_base) at e)))
    | inr given ↦ elim (Reading-cases (read path)) [
      | inl (inl missing) ↦ absurd (ground (arith, given, missing, e))
      | inl (inr no_yaml) ↦ absurd (ground (arith, given, no_yaml, e))
      | inr (fc, found) ↦
          from_file fc (λ p. ground (arith, given, (eq_iff path "").1 p)) found
            (apply_file_config-Says lib fc defaults base (rw (given, found, load_base) at e))
    ]
  ]

  apply_cli-Overridden :
      (args : List String) (base cfg : Config)
      → apply_cli lib shell args base ≡ ok cfg
      → (flags : List Flag) × (shell.parse_flags args ≡ ok flags)
        × Overridden lib shell flags base cfg
  unfolding apply_cli
  apply_cli-Overridden args base cfg e = elim (Result-cases (shell.parse_flags args)) [
    | inl (cause, bad) ↦ absurd (ground (arith, bad, e))
    | inr (flags, good) ↦
        let (same, _) =
          check_version-ok lib shell (visit lib shell flags base) cfg (rw (good, apply_cli) at e) in
        (
          flags,
          good,
          subst (Overridden lib shell flags base) (sym same)
              (visit-Overridden lib shell flags base),
        )
  ]

  -- If a configuration loads, each of its settings is what the last flag for it says; without a flag,
  -- what the file says for it (a number that is not 0, a text that is not empty, a parsed duration, an
  -- allowed version, an option that is there, a list of backends with their URLs and weights, or 1 for
  -- a weight that is not positive), where the file sets it; and otherwise the default.
  pub load-Overridden :
      (path : String) (args : List String) (cfg : Config)
      → load lib shell read path args ≡ ok cfg
      → (base : Config) × (flags : List Flag) × (shell.parse_flags args ≡ ok flags)
        × Base path base
        × Overridden lib shell flags base cfg
  unfolding load
  load-Overridden path args cfg e =
      let (base, loaded, more) = bind-ok (load_base lib shell read path) _ e in
      let (checked, given, last) =
        bind-ok (apply_cli lib shell args base) (check_breaker lib shell read) more in
      let same = check_breaker-same lib shell read checked cfg last in
      let (flags, parses, over) = apply_cli-Overridden args base checked given in
      (
        base,
        flags,
        parses,
        load_base-Base path base loaded,
        subst (Overridden lib shell flags base) (sym same) over,
      )

  -- On a reload, with no arguments, the file over the defaults is the whole configuration.
  pub load_file-Base :
      (path : String) (cfg : Config)
      → shell.parse_flags [] ≡ ok []
      → load_file lib shell read path ≡ ok cfg
      → Base path cfg
  unfolding load_file load visit apply_cli
  load_file-Base path cfg e r =
      let (base, loaded, more) = bind-ok (load_base lib shell read path) _ r in
      let (checked, given, last) =
        bind-ok (apply_cli lib shell [] base) (check_breaker lib shell read) more in
      let kept =
        check_version-ok lib shell (visit lib shell [] base) checked (rw (e, apply_cli) at given) in
      subst (Base path) (sym (check_breaker-same lib shell read checked cfg last ∙ kept.0))
        (load_base-Base path base loaded)
