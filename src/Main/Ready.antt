-- ===== src/Main/Ready.antt =====
-- cmd/golb/main.go: what a start gives.
use go_lb.Base.{
  refl, bind-ok, ok-injective, some-injective, String, ◌≡◌, sym, ap, ◌∙◌, subst, ◌≢◌, ◌⊎◌, inl, inr,
  Bool, true, false, ◌&&◌, Option, none, some, [], ◌∷◌, arith, ◌==◌, Bool-cases, length, All, ok,
  ◌>>=◌, All-map,
}
use go_lb.Base.Int.{pos}
use go_lb.Backend.{Url, is_alive}
use go_lb.Pool.{has_url}
use go_lb.Config.{Config}
use go_lb.RateLimit
use go_lb.RateLimit.{RateLimiter}
use go_lb.RateLimit.Limiter
use go_lb.Algo.{Algorithm}
use go_lb.Metrics.{Metrics, no_metrics}
use go_lb.Health.{with_unhealthy_threshold, with_healthy_threshold}
use go_lb.RateLimit.Limiter.{new-ok}
use go_lb.Health.Invariant.{unhealthy_option, healthy_option, Valid, new_health_checker-Inv}
use go_lb.Proxy.Breakers.{Registered}
use go_lb.CircuitBreaker.Registry.{Registry}
use go_lb.CircuitBreaker.Registry.{new_registry}
use go_lb.Reload.{eq_ℤ}
use go_lb.Proxy.{new_load_balancer}
use go_lb.Main.Start.{
  proxy_opts, registry, started, exit_if, check_tls, check_sessions, new_algorithm, start_metrics,
  start_limiter, checker_of, Platform, System, Members, register, no_members, start,
}
use go_lb.Main.Counted.{idle}
use go_lb.Main.Invariant.{Inv, Limits}
use go_lb.Main.Register.{registered, register-Registers, no_members-Enlisted}

exit_if-false : (b : Bool) (m : String) {x : Unit {0}} → exit_if b m ≡ ok x → b ≡ false
exit_if-false b m e = ground (arith, e)

module _ (os : Platform) where
  new_registry-Registered : (cfg : Config) → Registered (registry cfg)
  unfolding new_registry
  new_registry-Registered cfg u b found = absurd (ground (arith, found))

  started-registry :
      (cfg : Config) (algo : Algorithm)
      → let lb =
          new_load_balancer no_members.heap no_metrics no_members.pool algo (proxy_opts cfg) in
        (lb.cb_registry ≡ none) ⊎ (lb.cb_registry ≡ some (registry cfg))
  unfolding new_load_balancer proxy_opts
  started-registry cfg algo = ground arith

  breakers-Registered :
      (cfg : Config) (algo : Algorithm) (reg : Registry)
      → let lb =
          new_load_balancer no_members.heap no_metrics no_members.pool algo (proxy_opts cfg) in
        lb.cb_registry ≡ some reg → Registered reg
  breakers-Registered cfg algo reg set = elim (started-registry cfg algo) [
    | inl unset ↦ absurd (ground (arith, unset, set))
    | inr new ↦ subst Registered (some-injective (sym new ∙ set)) (new_registry-Registered cfg)
  ]

  limiter-made :
      (cfg : Config) (o : Option RateLimiter)
      → cfg.rate_limit.enabled ≡ true
      → start_limiter os cfg ≡ ok o
      → (RateLimit.new os.float cfg.rate_limit.requests_per_second cfg.rate_limit.burst
            cfg.rate_limit.per_ip os.now
          >>= λ l. ok (some l))
        ≡ ok o
  unfolding start_limiter
  limiter-made cfg o on e = sym (ground (arith, on)) ∙ e

  start_limiter-Limits :
      (cfg : Config) (o : Option RateLimiter) → start_limiter os cfg ≡ ok o → Limits o
  unfolding start_limiter
  start_limiter-Limits cfg o e l at = elim (Bool-cases cfg.rate_limit.enabled) [
    | inr off ↦ absurd (ground (arith, e, at, off))
    | inl on ↦
        let r = cfg.rate_limit in
        let (l', made, rest) =
          bind-ok (RateLimit.new os.float r.requests_per_second r.burst r.per_ip os.now)
            (λ l. ok (some l)) (limiter-made cfg o on e) in
        subst Limiter.Inv (some-injective (ok-injective rest ∙ at))
          (new-ok os.float r.requests_per_second r.burst r.per_ip os.now l' made)
  ]

  checker_of-Valid : (cfg : Config) → Valid (checker_of cfg)
  unfolding checker_of
  checker_of-Valid cfg =
      (new_health_checker-Inv cfg.health_check.path cfg.health_check.interval
        cfg.health_check.timeout
        (with_unhealthy_threshold cfg.health_check.unhealthy_threshold
          ∷ with_healthy_threshold cfg.health_check.healthy_threshold
          ∷ [])
        no_members.heap no_metrics (unhealthy_option _, (healthy_option _, tt))).valid

  -- What a start gives.
  pub record Started (cfg : Config) (s : System) : Type 0 where
    pub inv : Inv idle s
    pub alive : All (λ b. is_alive s.world.heap b ≡ true) s.world.pool
    pub serves :
        All
          (λ bc.
            (u : Url) × (os.parse bc.url ≡ ok u)
            × (has_url s.world.heap u.text s.world.pool ≡ true))
          cfg.pool.backends
    pub some_backend : cfg.pool.backends ≢ []

  -- What a start that ends well went through.
  pub record Steps (cfg_path : String) (cfg : Config) (s : System) : Type 0 where
    pub algo : Algorithm
    pub members : Members
    pub metrics : Metrics
    pub limiter : Option RateLimiter
    pub nonempty : (length cfg.pool.backends == 0) ≡ false
    pub endpoint :
        (cfg.metrics.enabled && eq_ℤ cfg.metrics.port (pos 0) && eq_ℤ cfg.admin.port (pos 0))
        ≡ false
    pub registers : register os cfg.pool.backends no_members ≡ ok members
    pub limits : start_limiter os cfg ≡ ok limiter
    pub system : started cfg_path cfg algo members metrics limiter ≡ s

  pub start-Steps :
      (cfg_path : String) (cfg : Config) (s : System)
      → start os cfg_path cfg ≡ ok s
      → Steps cfg_path cfg s
  unfolding start
  start-Steps cfg_path cfg s e =
      let (_, nonempty, e1) =
        bind-ok (exit_if (length cfg.pool.backends == 0) "no backends configured") _ e in
      let (_, _, e2) = bind-ok (check_tls os cfg) _ e1 in
      let (_, _, e3) = bind-ok (check_sessions os cfg) _ e2 in
      let (algo, _, e4) = bind-ok (new_algorithm os cfg) _ e3 in
      let (members, registered, e5) = bind-ok (register os cfg.pool.backends no_members) _ e4 in
      let (_, endpoint, e6) =
        bind-ok
          (exit_if
            (cfg.metrics.enabled && eq_ℤ cfg.metrics.port (pos 0) && eq_ℤ cfg.admin.port (pos 0))
            "metrics enabled but no endpoint available")
          _ e5 in
      let (metrics, _, e7) = bind-ok (start_metrics os cfg members) _ e6 in
      let (limiter, limited, e8) = bind-ok (start_limiter os cfg) _ e7 in
      record {
        algo = algo;
        members = members;
        metrics = metrics;
        limiter = limiter;
        nonempty = exit_if-false (length cfg.pool.backends == 0) _ nonempty;
        endpoint =
            exit_if-false
              (cfg.metrics.enabled && eq_ℤ cfg.metrics.port (pos 0) && eq_ℤ cfg.admin.port (pos 0))
              _ endpoint;
        registers = registered;
        limits = limited;
        system = ok-injective e8;
      }

  -- A start that ends well gives a system that satisfies the invariant, in which every configured
  -- backend, of which there is one at least, is in the pool under its parsed URL and is alive.
  pub start-Started :
      (cfg_path : String) (cfg : Config) (s : System) → start os cfg_path cfg ≡ ok s → Started cfg s
  start-Started cfg_path cfg s e =
      let t = start-Steps cfg_path cfg s e in
      let r =
        register-Registers os cfg.pool.backends no_members t.members (no_members-Enlisted os)
          t.registers in
      subst (Started cfg) t.system (record {
        inv = record {
          distinct = r.enlisted.distinct;
          allocated = All-map _ _ (λ b up. up.0) t.members.pool r.enlisted.up;
          counts = r.enlisted.counts;
          fresh = λ c above. refl;
          checker = checker_of-Valid cfg;
          ticker = (checker_of-Valid cfg).interval;
          breakers = breakers-Registered cfg t.algo;
          limits = start_limiter-Limits cfg t.limiter t.limits;
        };
        alive = All-map _ _ (λ b up. up.1) t.members.pool r.enlisted.up;
        serves = r.each;
        some_backend = λ none'. absurd (ground (arith, t.nonempty, ap length none'));
      })
