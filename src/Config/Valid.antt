-- ===== src/Config/Valid.antt =====
-- internal/config/config.go: what every configuration that loads satisfies.
use go_lb.Config.Load.{Reading, load_base, check_breaker, load, unreadable, unparsable, parsed}
use go_lb.Base.{
  String, ◌≡◌, refl, sym, subst, ◌⊎◌, inl, inr, true, not, ◌&&◌, ◌||◌, List, [], ◌∷◌, map, arith,
  str_eq, Bool-cases, All, get_or, ok, Result-cases, ok-injective, bind-ok,
}
use go_lb.Base.Int.{pos, ◌≤ℤ◌, ◌<ℤ◌}
use go_lb.Config.{Config, BackendConfig, PoolConfig, TlsConfig, defaults}
use go_lb.Config.File.{
  Library, FileBackend, FileConfig, allowed_version, apply_file_config, file_pool, file_backend,
  nonzero_or, file_tls, file_health_check, file_min_version, FileTls, file_rate_limit, file_metrics,
  file_circuit_breaker, file_sticky_session,
}
use go_lb.Config.Cli.{
  backends, cli_backends, apply_flag, visit, apply_cli, Shell, Flag, check_version,
}

abbrev pub Weighted : List BackendConfig → Type 0
Weighted = All (λ b. pos 1 ≤ℤ b.weight)

-- Weights are at least one, a minimum version of TLS is one of the two or not given, and a circuit
-- breaker that is on has positive numbers.
pub record Valid (cfg : Config) : Type 0 where
  pub weights : Weighted cfg.pool.backends
  pub version : (str_eq cfg.tls.min_version "" || allowed_version cfg.tls.min_version) ≡ true
  pub failures : cfg.circuit_breaker.enabled ≡ true → pos 0 <ℤ cfg.circuit_breaker.failure_threshold
  pub successes :
      cfg.circuit_breaker.enabled ≡ true → pos 0 <ℤ cfg.circuit_breaker.success_threshold
  pub waits : cfg.circuit_breaker.enabled ≡ true → pos 0 <ℤ cfg.circuit_breaker.timeout

file_backends-Weighted : (bs : List FileBackend) → Weighted (map file_backend bs)
file_backends-Weighted [] = tt
file_backends-Weighted (b ∷ bs) = (ground arith, file_backends-Weighted bs)

file_pool-Weighted :
    (name : String) (bs : List FileBackend) (cfg : PoolConfig)
    → Weighted cfg.backends
    → Weighted (file_pool name bs cfg).backends
unfolding file_pool
file_pool-Weighted name [] cfg w = w
file_pool-Weighted name (b ∷ bs) cfg w = file_backends-Weighted (b ∷ bs)

cli_backends-Weighted :
    (trim : String → String) (raws : List String) → Weighted (cli_backends trim raws)
unfolding cli_backends
cli_backends-Weighted trim [] = tt
cli_backends-Weighted trim (raw ∷ rest) = elim (Bool-cases (str_eq (trim raw) "")) [
  | inl e ↦ rw e (cli_backends-Weighted trim rest)
  | inr e ↦ rw e (omega arith, cli_backends-Weighted trim rest)
]

-- What a file that loads has set, part by part.
pub record Filed (lib : Library) (fc : FileConfig) (cfg cfg' : Config) : Type 0 where
  pub server : cfg'.server.port ≡ nonzero_or fc.server_port cfg.server.port
  pub pool : cfg'.pool ≡ file_pool fc.algorithm fc.backends cfg.pool
  pub health_check : file_health_check lib fc.health_check cfg.health_check ≡ ok cfg'.health_check
  pub admin : cfg'.admin.port ≡ get_or fc.admin_port cfg.admin.port
  pub rate_limit : cfg'.rate_limit ≡ file_rate_limit fc.rate_limit cfg.rate_limit
  pub metrics : cfg'.metrics ≡ file_metrics fc.metrics cfg.metrics
  pub circuit_breaker :
      file_circuit_breaker lib fc.circuit_breaker cfg.circuit_breaker ≡ ok cfg'.circuit_breaker
  pub tls : file_tls lib fc.tls cfg.tls ≡ ok cfg'.tls
  pub sticky_session :
      file_sticky_session lib fc.sticky_session cfg.sticky_session ≡ ok cfg'.sticky_session

pub apply_file_config-Filed :
    (lib : Library) (fc : FileConfig) (cfg cfg' : Config)
    → apply_file_config lib fc cfg ≡ ok cfg'
    → Filed lib fc cfg cfg'
unfolding apply_file_config
apply_file_config-Filed lib fc cfg cfg' e = ground arith

file_tls-version :
    (lib : Library) (fc : FileTls) (cfg cfg' : TlsConfig)
    → (str_eq cfg.min_version "" || allowed_version cfg.min_version) ≡ true
    → file_tls lib fc cfg ≡ ok cfg'
    → (str_eq cfg'.min_version "" || allowed_version cfg'.min_version) ≡ true
unfolding file_tls file_min_version
file_tls-version lib fc cfg cfg' v e = ground arith

apply_flag-Weighted :
    (lib : Library) (shell : Shell) (f : Flag) (cfg : Config)
    → Weighted cfg.pool.backends
    → Weighted (apply_flag lib shell f cfg).pool.backends
unfolding apply_flag
apply_flag-Weighted lib shell (backends raw) cfg w =
    cli_backends-Weighted lib.trim_space (shell.split_comma raw)
apply_flag-Weighted lib shell _ cfg w = w

visit-Weighted :
    (lib : Library) (shell : Shell) (fs : List Flag) (cfg : Config)
    → Weighted cfg.pool.backends
    → Weighted (visit lib shell fs cfg).pool.backends
unfolding visit
visit-Weighted lib shell [] cfg w = w
visit-Weighted lib shell (f ∷ fs) cfg w =
    visit-Weighted lib shell fs (apply_flag lib shell f cfg) (apply_flag-Weighted lib shell f cfg w)

pub check_version-ok :
    (lib : Library) (shell : Shell) (cfg cfg' : Config)
    → check_version lib shell cfg ≡ ok cfg'
    → (cfg' ≡ cfg) × ((str_eq cfg.tls.min_version "" || allowed_version cfg.tls.min_version) ≡ true)
unfolding check_version
check_version-ok lib shell cfg cfg' e =
    elim (Bool-cases
      (not (str_eq cfg.tls.min_version "") && not (allowed_version cfg.tls.min_version))) [
        | inl bad ↦ absurd (ground (arith, bad, e))
        | inr good ↦ (sym (ok-injective (rw (good, check_version) at e)), ground (arith, good))
      ]

apply_cli-checked :
    (lib : Library) (shell : Shell) (args : List String) (cfg cfg' : Config)
    → Weighted cfg.pool.backends
    → apply_cli lib shell args cfg ≡ ok cfg'
    → Weighted cfg'.pool.backends
      × ((str_eq cfg'.tls.min_version "" || allowed_version cfg'.tls.min_version) ≡ true)
unfolding apply_cli
apply_cli-checked lib shell args cfg cfg' w e = elim (Result-cases (shell.parse_flags args)) [
  | inl (cause, bad) ↦ absurd (ground (arith, bad, e))
  | inr (flags, good) ↦
      let c = visit lib shell flags cfg in
      let (same, v) = check_version-ok lib shell c cfg' (rw (good, apply_cli) at e) in
      (
        subst (λ x. Weighted x.pool.backends) (sym same) (visit-Weighted lib shell flags cfg w),
        subst (λ x. (str_eq x.tls.min_version "" || allowed_version x.tls.min_version) ≡ true)
            (sym same) v,
      )
]

pub Reading-cases :
    (r : Reading) → ((r ≡ unreadable) ⊎ (r ≡ unparsable)) ⊎ ((fc : FileConfig) × (r ≡ parsed fc))
Reading-cases unreadable = inl (inl refl)
Reading-cases unparsable = inl (inr refl)
Reading-cases (parsed fc) = inr (fc, refl)

module _ (lib : Library) (shell : Shell) (read : String → Reading) where
  load_base-Weighted :
      (path : String) (cfg : Config)
      → load_base lib shell read path ≡ ok cfg
      → Weighted cfg.pool.backends
  unfolding load_base defaults
  load_base-Weighted path cfg e = elim (Bool-cases (str_eq path "")) [
    | inl none_given ↦
        subst (λ x. Weighted x.pool.backends) (ok-injective (rw (none_given, load_base) at e)) tt
    | inr given ↦ elim (Reading-cases (read path)) [
      | inl (inl no_file) ↦ absurd (ground (arith, given, no_file, e))
      | inl (inr no_yaml) ↦ absurd (ground (arith, given, no_yaml, e))
      | inr (fc, found) ↦
          let filed =
            apply_file_config-Filed lib fc defaults cfg (rw (given, found, load_base) at e) in
          subst (λ x. Weighted x.backends) (sym filed.pool)
            (file_pool-Weighted fc.algorithm fc.backends defaults.pool tt)
    ]
  ]

  pub check_breaker-same :
      (cfg cfg' : Config) → check_breaker lib shell read cfg ≡ ok cfg' → cfg' ≡ cfg
  unfolding check_breaker
  check_breaker-same cfg cfg' e = ground arith

  check_breaker-numbers :
      (cfg cfg' : Config)
      → check_breaker lib shell read cfg ≡ ok cfg'
      → (cfg.circuit_breaker.enabled ≡ true → pos 0 <ℤ cfg.circuit_breaker.failure_threshold)
        × (cfg.circuit_breaker.enabled ≡ true → pos 0 <ℤ cfg.circuit_breaker.success_threshold)
        × (cfg.circuit_breaker.enabled ≡ true → pos 0 <ℤ cfg.circuit_breaker.timeout)
  unfolding check_breaker
  check_breaker-numbers cfg cfg' e = (λ on. ground arith, λ on. ground arith, λ on. ground arith)

  -- Whatever the file and the command line hold, a configuration that loads is valid.
  pub load-Valid :
      (path : String) (args : List String) (cfg : Config)
      → load lib shell read path args ≡ ok cfg
      → Valid cfg
  unfolding load
  load-Valid path args cfg e =
      let (base, loaded, more) = bind-ok (load_base lib shell read path) _ e in
      let (checked, given, last) =
        bind-ok (apply_cli lib shell args base) (check_breaker lib shell read) more in
      let same = check_breaker-same checked cfg last in
      let (weights, version) =
        apply_cli-checked lib shell args base checked (load_base-Weighted path base loaded) given in
      subst Valid (sym same) (record {
        weights = weights;
        version = version;
        failures = (check_breaker-numbers checked cfg last).0;
        successes = (check_breaker-numbers checked cfg last).1;
        waits = (check_breaker-numbers checked cfg last).2;
      })
