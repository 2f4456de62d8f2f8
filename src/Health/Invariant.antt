-- ===== src/Health/Invariant.antt =====
-- internal/health/health.go: what holds of the checker at all times.
use go_lb.Pool.{ServerPool}
use go_lb.Metrics.{Metrics}
use go_lb.Backend.{Heap, Ref, url_of}
use go_lb.Health.Thresholds.{checked, threshold, signed, check_backend-checked, progress}
use go_lb.Health.{
  HealthChecker, Site, Setting, new_health_checker, at_least_one, update_config, consecutive_of,
  with_unhealthy_threshold, apply_options, with_healthy_threshold, check_all, prune, tick, turn,
  count, Probe, check_backend, healthy,
}
use go_lb.Base.{
  GoMap, ℕ, suc, String, ◌≡◌, refl, sym, ap, ◌∙◌, subst, inl, inr, Bool, true, false, List, [], ◌∷◌,
  arith, if◌then◌else◌, Bool-cases, All, empty_map,
}
use go_lb.Base.Int.{ℤ, pos, pos_part, neg_part, ◌≤ℤ◌, ◌<ℤ◌, leb_ℤ}

-- The settings: what the ticker and the client need, and thresholds of at least one.
pub record Valid (hc : HealthChecker) : Type 0 where
  pub interval : pos 0 <ℤ hc.interval
  pub timeout : pos 0 <ℤ hc.timeout
  pub client : hc.client ≡ hc.timeout
  pub unhealthy : pos 1 ≤ℤ hc.unhealthy_threshold
  pub healthy : pos 1 ≤ℤ hc.healthy_threshold

-- No count has reached its threshold.
abbrev pub Short : HealthChecker → ℤ → Type 0
Short hc c =
    (pos (pos_part c) <ℤ hc.healthy_threshold) × (pos (neg_part c) <ℤ hc.unhealthy_threshold)

pub record Inv (s : Site) : Type 0 where
  pub valid : Valid s.checker
  pub short : (key : String) → Short s.checker (consecutive_of s key)

-- The options that the package has.
pub data ThresholdOption : Setting → Type 0 where
  unhealthy_option : (n : ℤ) → ThresholdOption (with_unhealthy_threshold n)
  healthy_option : (n : ℤ) → ThresholdOption (with_healthy_threshold n)

record Kept (hc hc' : HealthChecker) : Type 0 where
  pub interval : hc'.interval ≡ hc.interval
  pub timeout : hc'.timeout ≡ hc.timeout
  pub client : hc'.client ≡ hc.client
  pub consecutive : hc'.consecutive ≡ hc.consecutive

option-Kept : {o : Setting} (hc : HealthChecker) → ThresholdOption o → Kept hc (o hc)
option-Kept hc (unhealthy_option n) = record {
  interval = refl;
  timeout = refl;
  client = refl;
  consecutive = refl;
}
option-Kept hc (healthy_option n) = record {
  interval = refl;
  timeout = refl;
  client = refl;
  consecutive = refl;
}

options-Kept :
    (opts : List Setting) (hc : HealthChecker)
    → All ThresholdOption opts
    → Kept hc (apply_options opts hc)
options-Kept [] hc ok = record {
  interval = refl;
  timeout = refl;
  client = refl;
  consecutive = refl;
}
options-Kept (o ∷ os) hc ok =
    let a = option-Kept hc ok.0 in
    let b = options-Kept os (o hc) ok.1 in
    record {
      interval = b.interval ∙ a.interval;
      timeout = b.timeout ∙ a.timeout;
      client = b.client ∙ a.client;
      consecutive = b.consecutive ∙ a.consecutive;
    }

-- A new checker satisfies the invariant, whatever interval, timeout and thresholds it is asked to
-- have.
pub new_health_checker-Inv :
    (path : String) (interval timeout : ℤ) (opts : List Setting) (h : Heap) (m : Metrics)
    → All ThresholdOption opts
    → Inv
        (record { heap = h; metrics = m; checker = new_health_checker path interval timeout opts })
unfolding new_health_checker
new_health_checker-Inv path interval timeout opts h m ok =
    let k =
      options-Kept opts
        (record {
          path = path;
          interval = if leb_ℤ interval (pos 0) then pos 10000000000 else interval;
          timeout = if leb_ℤ timeout (pos 0) then pos 2000000000 else timeout;
          unhealthy_threshold = pos 3;
          healthy_threshold = pos 2;
          client = if leb_ℤ timeout (pos 0) then pos 2000000000 else timeout;
          consecutive = empty_map;
        })
        ok in
    record {
      valid = record {
        interval = ground (arith, k.interval);
        timeout = ground (arith, k.timeout);
        client = k.client ∙ sym k.timeout;
        unhealthy = ground arith;
        healthy = ground arith;
      };
      short = λ key. ground (arith, ap (λ m. m key) k.consecutive);
    }

at_least_one-Valid : (n : ℤ) → pos 1 ≤ℤ at_least_one n
at_least_one-Valid n = ground arith

-- A reload keeps the settings valid, whatever it asks for.
pub update_config-Valid :
    (hc : HealthChecker) (path : String) (interval timeout unhealthy healthy : ℤ)
    → Valid hc
    → Valid (update_config hc path interval timeout unhealthy healthy)
unfolding update_config
update_config-Valid hc path interval timeout unhealthy healthy v = record {
  interval = ground (arith, v.interval);
  timeout = ground (arith, v.timeout);
  client = ground (arith, v.client);
  unhealthy = at_least_one-Valid unhealthy;
  healthy = at_least_one-Valid healthy;
}

-- The counts do not matter to the settings.
counted-Valid :
    (hc : HealthChecker) (m : GoMap ℤ) → Valid hc → Valid (record hc { consecutive = m })
counted-Valid hc m v = record {
  interval = v.interval;
  timeout = v.timeout;
  client = v.client;
  unhealthy = v.unhealthy;
  healthy = v.healthy;
}

turn-Inv : (b : Ref) (up : Bool) (s : Site) → Inv s → Inv (turn b up s)
turn-Inv b up s v = record {
  valid = counted-Valid s.checker _ v.valid;
  short = λ key. ground (arith, v.short key, v.valid.healthy, v.valid.unhealthy);
}

count-Inv : (b : Ref) (n : ℤ) (s : Site) → Short s.checker n → Inv s → Inv (count b n s)
count-Inv b n s fits v = record {
  valid = counted-Valid s.checker _ v.valid;
  short = λ key. ground (arith, v.short key, fits);
}

checked-Inv : (b : Ref) (up : Bool) (s : Site) → Inv s → Inv (checked b up s)
checked-Inv b up s v =
    let n = suc (progress up (consecutive_of s (url_of s.heap b))) in
    elim (Bool-cases (leb_ℤ (threshold up s.checker) (pos n))) [
      | inl full ↦ subst Inv (ground (arith, full)) (turn-Inv b up s v)
      | inr short ↦
          subst Inv (ground (arith, short)) (count-Inv b (signed up n) s (fits up n short) v)
    ]
  where
    fits :
        (up : Bool) (n : ℕ)
        → leb_ℤ (threshold up s.checker) (pos n) ≡ false
        → Short s.checker (signed up n)
    fits true n e = ground (arith, v.valid.unhealthy)
    fits false n e = ground (arith, v.valid.healthy)

check_all-Inv : (probes : List (Ref × Probe)) (s : Site) → Inv s → Inv (check_all probes s)
unfolding check_all
check_all-Inv [] s v = v
check_all-Inv ((b, p) ∷ rest) s v =
    check_all-Inv rest (check_backend b p s)
      (subst Inv (sym (check_backend-checked b p s)) (checked-Inv b (healthy p) s v))

prune-Inv : (bs : ServerPool) (s : Site) → Inv s → Inv (prune bs s)
unfolding prune
prune-Inv bs s v = record {
  valid = counted-Valid s.checker _ v.valid;
  short = λ key. ground (arith, v.short key, v.valid.healthy, v.valid.unhealthy);
}

-- A tick keeps the invariant, whatever the probes bring and in whatever order they are counted, and
-- the interval that it leaves to the ticker is positive.
pub tick-Inv :
    (bs : ServerPool) (probes : List (Ref × Probe)) (current_interval : ℤ) (s : Site)
    → Inv s
    → Inv (tick bs probes (current_interval, s)).1
      × (pos 0 <ℤ (tick bs probes (current_interval, s)).0)
unfolding tick
tick-Inv bs probes current_interval s v =
    let v' = check_all-Inv probes s v in (prune-Inv bs (check_all probes s) v', v'.valid.interval)

checked-Valid : (b : Ref) (up : Bool) (s : Site) → Valid s.checker → Valid (checked b up s).checker
checked-Valid b up s v =
    elim (Bool-cases (
      leb_ℤ (threshold up s.checker)
        (pos (suc (progress up (consecutive_of s (url_of s.heap b))))))) [
          | inl full ↦ rw full (counted-Valid s.checker _ v)
          | inr short ↦ rw short (counted-Valid s.checker _ v)
        ]

pub check_all-Valid :
    (probes : List (Ref × Probe)) (s : Site) → Valid s.checker → Valid (check_all probes s).checker
unfolding check_all
check_all-Valid [] s v = v
check_all-Valid ((b, p) ∷ rest) s v = check_all-Valid rest (check_backend b p s) (
    subst (λ a. Valid a.checker) (sym (check_backend-checked b p s))
      (checked-Valid b (healthy p) s v))

pub tick-Valid :
    (bs : ServerPool) (probes : List (Ref × Probe)) (current_interval : ℤ) (s : Site)
    → Valid s.checker
    → Valid (tick bs probes (current_interval, s)).1.checker
      × (pos 0 <ℤ (tick bs probes (current_interval, s)).0)
unfolding tick prune
tick-Valid bs probes current_interval s v =
    let v' = check_all-Valid probes s v in (counted-Valid _ _ v', v'.interval)
