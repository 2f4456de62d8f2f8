-- ===== src/Config/Applied.antt =====
-- internal/config/config.go: `applyFileConfig` does what each setting of the file says.
use go_lb.Config.Settings.{Given, set, unset, Number, Text, Listed, Duration, Version, Says}
use go_lb.Base.{
  zero, suc, String, ◌≡◌, refl, sym, ap, ◌∙◌, subst, bind-ok, ok-injective, ◌≢◌, Option, none, some,
  List, [], ◌∷◌, map, arith, eq_iff, get_or, ok,
}
use go_lb.Base.Int.{ℤ, pos, negsuc}
use go_lb.Config.{
  Config, PoolConfig, HealthCheckConfig, CircuitBreakerConfig, TlsConfig, StickySessionConfig,
}
use go_lb.Config.File.{
  Library, FileBackend, FileHealthCheck, FileCircuitBreaker, FileTls, FileStickySession, FileConfig,
  nonzero_or, nonempty_or, file_backend, file_duration, file_min_version, file_pool,
  file_health_check, file_rate_limit, file_metrics, file_circuit_breaker, file_tls,
  file_sticky_session, apply_file_config,
}
use go_lb.Config.Valid.{apply_file_config-Filed}

given {ℓ} : {A : Type ℓ} (o : Option A) {old new : A} → new ≡ get_or o old → Given o old new
given none {old} e = subst (Given none old) (sym e) unset
given (some a) {old} e = subst (Given (some a) old) (sym e) set

number : (x : ℤ) {old new : ℤ} → new ≡ nonzero_or x old → Number x old new
number (pos zero) e = (λ n. absurd (n refl), λ z. e)
number (pos (suc k)) e = (λ n. e, λ z. absurd (ground (arith, z)))
number (negsuc k) e = (λ n. e, λ z. absurd (ground (arith, z)))

text : (x : String) {old new : String} → new ≡ nonempty_or x old → Text x old new
text x e = ground (arith, eq_iff x "", e)

map-Listed : (bs : List FileBackend) → Listed bs (map file_backend bs)
map-Listed [] = tt
map-Listed (b ∷ bs) = ((refl, ground arith, ground arith), map-Listed bs)

file_pool-Listed :
    (name : String) (bs : List FileBackend) (cfg : PoolConfig)
    → (bs ≡ [] → (file_pool name bs cfg).backends ≡ cfg.backends)
      × (bs ≢ [] → Listed bs (file_pool name bs cfg).backends)
unfolding file_pool
file_pool-Listed name [] cfg = (λ e. refl, λ n. absurd (n refl))
file_pool-Listed name (b ∷ bs) cfg = (λ e. absurd (ground (arith, e)), λ n. map-Listed (b ∷ bs))

module _ (lib : Library) where
  file_duration-Duration :
      (name x : String) (old new : ℤ)
      → file_duration lib name x old ≡ ok new
      → Duration lib x old new
  unfolding file_duration
  file_duration-Duration name x old new e = ground (arith, eq_iff x "", e)

  file_min_version-Version :
      (x old new : String) → file_min_version lib x old ≡ ok new → Version lib x old new
  unfolding file_min_version
  file_min_version-Version x old new e =
      ground
        (arith, eq_iff x "", eq_iff (lib.trim_space x) "1.2", eq_iff (lib.trim_space x) "1.3", e)

  health :
      (fc : FileHealthCheck) (cfg new : HealthCheckConfig)
      → file_health_check lib fc cfg ≡ ok new
      → Duration lib fc.interval cfg.interval new.interval
        × Duration lib fc.timeout cfg.timeout new.timeout
        × (new.path ≡ nonempty_or fc.path cfg.path)
        × (new.unhealthy_threshold ≡ nonzero_or fc.unhealthy_threshold cfg.unhealthy_threshold)
        × (new.healthy_threshold ≡ nonzero_or fc.healthy_threshold cfg.healthy_threshold)
  unfolding file_health_check
  health fc cfg new e =
      let (interval, first, more) =
        bind-ok (file_duration lib "invalid health_check.interval" fc.interval cfg.interval) _ e in
      let (timeout, second, last) =
        bind-ok (file_duration lib "invalid health_check.timeout" fc.timeout cfg.timeout) _ more in
      let same = ok-injective last in
      (
        subst (Duration lib fc.interval cfg.interval) (ap (λ c. c.interval) same)
            (file_duration-Duration _ fc.interval cfg.interval interval first),
        subst (Duration lib fc.timeout cfg.timeout) (ap (λ c. c.timeout) same)
            (file_duration-Duration _ fc.timeout cfg.timeout timeout second),
        sym (ap (λ c. c.path) same),
        sym (ap (λ c. c.unhealthy_threshold) same),
        sym (ap (λ c. c.healthy_threshold) same),
      )

  breaker :
      (fc : FileCircuitBreaker) (cfg new : CircuitBreakerConfig)
      → file_circuit_breaker lib fc cfg ≡ ok new
      → Duration lib fc.timeout cfg.timeout new.timeout
        × (new.enabled ≡ get_or fc.enabled cfg.enabled)
        × (new.failure_threshold ≡ get_or fc.failure_threshold cfg.failure_threshold)
        × (new.success_threshold ≡ get_or fc.success_threshold cfg.success_threshold)
  unfolding file_circuit_breaker
  breaker fc cfg new e =
      let (timeout, first, last) =
        bind-ok (file_duration lib "invalid circuit_breaker.timeout" fc.timeout cfg.timeout) _ e in
      let same = ok-injective last in
      (
        subst (Duration lib fc.timeout cfg.timeout) (ap (λ c. c.timeout) same)
            (file_duration-Duration _ fc.timeout cfg.timeout timeout first),
        sym (ap (λ c. c.enabled) same),
        sym (ap (λ c. c.failure_threshold) same),
        sym (ap (λ c. c.success_threshold) same),
      )

  tls :
      (fc : FileTls) (cfg new : TlsConfig)
      → file_tls lib fc cfg ≡ ok new
      → Version lib fc.min_version cfg.min_version new.min_version
        × (new.enabled ≡ get_or fc.enabled cfg.enabled)
        × (new.cert_file ≡ nonempty_or fc.cert_file cfg.cert_file)
        × (new.key_file ≡ nonempty_or fc.key_file cfg.key_file)
  unfolding file_tls
  tls fc cfg new e =
      let (version, first, last) =
        bind-ok (file_min_version lib fc.min_version cfg.min_version) _ e in
      let same = ok-injective last in
      (
        subst (Version lib fc.min_version cfg.min_version) (ap (λ c. c.min_version) same)
            (file_min_version-Version fc.min_version cfg.min_version version first),
        sym (ap (λ c. c.enabled) same),
        sym (ap (λ c. c.cert_file) same),
        sym (ap (λ c. c.key_file) same),
      )

  sticky :
      (fc : FileStickySession) (cfg new : StickySessionConfig)
      → file_sticky_session lib fc cfg ≡ ok new
      → Duration lib fc.ttl cfg.ttl new.ttl
        × (new.enabled ≡ get_or fc.enabled cfg.enabled)
        × (new.cookie_name ≡ nonempty_or fc.cookie_name cfg.cookie_name)
  unfolding file_sticky_session
  sticky fc cfg new e =
      let (ttl, first, last) =
        bind-ok (file_duration lib "invalid sticky_sessions.ttl" fc.ttl cfg.ttl) _ e in
      let same = ok-injective last in
      (
        subst (Duration lib fc.ttl cfg.ttl) (ap (λ c. c.ttl) same)
            (file_duration-Duration _ fc.ttl cfg.ttl ttl first),
        sym (ap (λ c. c.enabled) same),
        sym (ap (λ c. c.cookie_name) same),
      )

  -- A file that loads has set what it says, and left the rest.
  pub apply_file_config-Says :
      (fc : FileConfig) (old new : Config)
      → apply_file_config lib fc old ≡ ok new
      → Says lib fc old new
  unfolding file_pool file_rate_limit file_metrics
  apply_file_config-Says fc old new e =
      let f = apply_file_config-Filed lib fc old new e in
      let pool = file_pool-Listed fc.algorithm fc.backends old.pool in
      let h = health fc.health_check old.health_check new.health_check f.health_check in
      let b =
        breaker fc.circuit_breaker old.circuit_breaker new.circuit_breaker f.circuit_breaker in
      let t = tls fc.tls old.tls new.tls f.tls in
      let s = sticky fc.sticky_session old.sticky_session new.sticky_session f.sticky_session in
      record {
        port = number fc.server_port f.server;
        algorithm = text fc.algorithm (ap (λ c. c.algorithm) f.pool);
        no_backends = λ none_there. ap (λ c. c.backends) f.pool ∙ pool.0 none_there;
        backends = λ there. subst (λ c. Listed fc.backends c.backends) (sym f.pool) (pool.1 there);
        health_path = text fc.health_check.path h.2;
        health_interval = h.0;
        health_timeout = h.1;
        unhealthy_threshold = number fc.health_check.unhealthy_threshold h.3;
        healthy_threshold = number fc.health_check.healthy_threshold h.4;
        admin_port = given fc.admin_port f.admin;
        rl_enabled = given fc.rate_limit.enabled (ap (λ c. c.enabled) f.rate_limit);
        rl_rps =
            given fc.rate_limit.requests_per_second (ap (λ c. c.requests_per_second) f.rate_limit);
        rl_burst = given fc.rate_limit.burst (ap (λ c. c.burst) f.rate_limit);
        rl_per_ip = given fc.rate_limit.per_ip (ap (λ c. c.per_ip) f.rate_limit);
        metrics_enabled = given fc.metrics.enabled (ap (λ c. c.enabled) f.metrics);
        metrics_port = given fc.metrics.port (ap (λ c. c.port) f.metrics);
        cb_enabled = given fc.circuit_breaker.enabled b.1;
        cb_failure_threshold = given fc.circuit_breaker.failure_threshold b.2;
        cb_success_threshold = given fc.circuit_breaker.success_threshold b.3;
        cb_timeout = b.0;
        tls_enabled = given fc.tls.enabled t.1;
        tls_cert = text fc.tls.cert_file t.2;
        tls_key = text fc.tls.key_file t.3;
        tls_version = t.0;
        sticky_enabled = given fc.sticky_session.enabled s.1;
        sticky_cookie_name = text fc.sticky_session.cookie_name s.2;
        sticky_ttl = s.0;
      }
