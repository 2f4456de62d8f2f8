-- ===== src/Config/Settings.antt =====
-- internal/config/config.go: what each setting of a configuration file means, said of the file and of
-- the configuration before and after, one setting at a time.
use go_lb.Base.{String, ◌≡◌, ◌≢◌, ◌⊎◌, true, false, Option, none, some, List, [], ◌∷◌, ok}
use go_lb.Base.Int.{ℤ, pos, ◌≤ℤ◌, ◌<ℤ◌}
use go_lb.Config.{Config, BackendConfig}
use go_lb.Config.File.{Library, FileBackend, FileConfig}

-- A setting that may be there, a number that counts if it is not 0, a text that counts if it is not
-- empty; the setting before, and the one after.
pub data Given {ℓ} {A : Type ℓ} : Option A → A → A → Type ℓ where
  set : {old new : A} → Given (some new) old new
  unset : {old : A} → Given none old old

abbrev pub Number : ℤ → ℤ → ℤ → Type 0
Number x old new = (x ≢ pos 0 → new ≡ x) × (x ≡ pos 0 → new ≡ old)

abbrev pub Text : String → String → String → Type 0
Text x old new = (x ≢ "" → new ≡ x) × (x ≡ "" → new ≡ old)

-- The backends of the file, each with its URL and with its weight, or 1 for one that is not positive.
abbrev pub Listed : List FileBackend → List BackendConfig → Type 0
Listed [] [] = Unit
Listed [] (c ∷ cs) = true ≡ false
Listed (b ∷ bs) [] = true ≡ false
Listed (b ∷ bs) (c ∷ cs) =
    ((c.url ≡ b.url)
      × (pos 0 <ℤ b.weight → c.weight ≡ b.weight)
      × (b.weight ≤ℤ pos 0 → c.weight ≡ pos 1))
    × Listed bs cs

module _ (lib : Library) where
  -- A duration, and a version of TLS.
  abbrev pub Duration : String → ℤ → ℤ → Type 0
  Duration x old new = (x ≢ "" → lib.parse_duration x ≡ ok new) × (x ≡ "" → new ≡ old)

  abbrev pub Version : String → String → String → Type 0
  Version x old new =
      (x ≢ "" → (new ≡ lib.trim_space x) × ((new ≡ "1.2") ⊎ (new ≡ "1.3"))) × (x ≡ "" → new ≡ old)

  pub record Says (fc : FileConfig) (old new : Config) : Type 0 where
    pub port : Number fc.server_port old.server.port new.server.port
    pub algorithm : Text fc.algorithm old.pool.algorithm new.pool.algorithm
    pub no_backends : fc.backends ≡ [] → new.pool.backends ≡ old.pool.backends
    pub backends : fc.backends ≢ [] → Listed fc.backends new.pool.backends
    pub health_path : Text fc.health_check.path old.health_check.path new.health_check.path
    pub health_interval :
        Duration fc.health_check.interval old.health_check.interval new.health_check.interval
    pub health_timeout :
        Duration fc.health_check.timeout old.health_check.timeout new.health_check.timeout
    pub unhealthy_threshold :
        Number fc.health_check.unhealthy_threshold old.health_check.unhealthy_threshold
          new.health_check.unhealthy_threshold
    pub healthy_threshold :
        Number fc.health_check.healthy_threshold old.health_check.healthy_threshold
          new.health_check.healthy_threshold
    pub admin_port : Given fc.admin_port old.admin.port new.admin.port
    pub rl_enabled : Given fc.rate_limit.enabled old.rate_limit.enabled new.rate_limit.enabled
    pub rl_rps :
        Given fc.rate_limit.requests_per_second old.rate_limit.requests_per_second
          new.rate_limit.requests_per_second
    pub rl_burst : Given fc.rate_limit.burst old.rate_limit.burst new.rate_limit.burst
    pub rl_per_ip : Given fc.rate_limit.per_ip old.rate_limit.per_ip new.rate_limit.per_ip
    pub metrics_enabled : Given fc.metrics.enabled old.metrics.enabled new.metrics.enabled
    pub metrics_port : Given fc.metrics.port old.metrics.port new.metrics.port
    pub cb_enabled :
        Given fc.circuit_breaker.enabled old.circuit_breaker.enabled new.circuit_breaker.enabled
    pub cb_failure_threshold :
        Given fc.circuit_breaker.failure_threshold old.circuit_breaker.failure_threshold
          new.circuit_breaker.failure_threshold
    pub cb_success_threshold :
        Given fc.circuit_breaker.success_threshold old.circuit_breaker.success_threshold
          new.circuit_breaker.success_threshold
    pub cb_timeout :
        Duration fc.circuit_breaker.timeout old.circuit_breaker.timeout new.circuit_breaker.timeout
    pub tls_enabled : Given fc.tls.enabled old.tls.enabled new.tls.enabled
    pub tls_cert : Text fc.tls.cert_file old.tls.cert_file new.tls.cert_file
    pub tls_key : Text fc.tls.key_file old.tls.key_file new.tls.key_file
    pub tls_version : Version fc.tls.min_version old.tls.min_version new.tls.min_version
    pub sticky_enabled :
        Given fc.sticky_session.enabled old.sticky_session.enabled new.sticky_session.enabled
    pub sticky_cookie_name :
        Text fc.sticky_session.cookie_name old.sticky_session.cookie_name
          new.sticky_session.cookie_name
    pub sticky_ttl : Duration fc.sticky_session.ttl old.sticky_session.ttl new.sticky_session.ttl
