-- ===== src/Health.antt =====
-- internal/health/health.go: the health checker, which marks backends dead and alive by counts of
-- probes that went the same way.
pub mod Thresholds
pub mod Invariant
use go_lb.Metrics.{Metrics, set_backend_up}
use go_lb.Pool.{ServerPool, has_url}
use go_lb.Backend.{Heap, Ref, is_alive, url_of, set_alive}
use go_lb.Base.{
  ℕ, String, Bool, true, false, not, ◌||◌, none, List, [], ◌∷◌, ltb, leb, if◌then◌else◌, GoMap,
  empty_map, insert, get_or,
}
use go_lb.Base.Int.{ℤ, pos, ◌+ℤ◌, ◌-ℤ◌, ltb_ℤ, leb_ℤ}

-- `hc.client` is known by the timeout that it was made with. Times are in nanoseconds.
pub record HealthChecker : Type 0 where
  pub path : String
  pub interval : ℤ
  pub timeout : ℤ
  pub unhealthy_threshold : ℤ
  pub healthy_threshold : ℤ
  pub client : ℤ
  pub consecutive : GoMap ℤ

abbrev pub Setting : Type 0
Setting = HealthChecker → HealthChecker

abbrev pub with_unhealthy_threshold : ℤ → Setting
with_unhealthy_threshold n hc = record hc { unhealthy_threshold = n }

abbrev pub with_healthy_threshold : ℤ → Setting
with_healthy_threshold n hc = record hc { healthy_threshold = n }

abbrev pub apply_options : List Setting → HealthChecker → HealthChecker
apply_options [] hc = hc
apply_options (o ∷ os) hc = apply_options os (o hc)

-- `if n < 1 { n = 1 }`
abbrev pub at_least_one : ℤ → ℤ
at_least_one n = if ltb_ℤ n (pos 1) then pos 1 else n

abbrev clamp : HealthChecker → HealthChecker
clamp hc = record hc {
  unhealthy_threshold = at_least_one hc.unhealthy_threshold;
  healthy_threshold = at_least_one hc.healthy_threshold;
}

unfoldable pub new_health_checker : String → ℤ → ℤ → List Setting → HealthChecker
new_health_checker path interval timeout opts =
    let i = if leb_ℤ interval (pos 0) then pos 10000000000 else interval in
    let t = if leb_ℤ timeout (pos 0) then pos 2000000000 else timeout in
    clamp (
      apply_options opts (record {
        path = path;
        interval = i;
        timeout = t;
        unhealthy_threshold = pos 3;
        healthy_threshold = pos 2;
        client = t;
        consecutive = empty_map;
      }))

-- The checker with what its probes change.
pub record Site : Type 0 where
  pub heap : Heap
  pub metrics : Metrics
  pub checker : HealthChecker

abbrev pub consecutive_of : Site → String → ℤ
consecutive_of s key = get_or (s.checker.consecutive key) (pos 0)

abbrev pub set_consecutive : HealthChecker → String → ℤ → HealthChecker
set_consecutive hc key n = record hc { consecutive = insert hc.consecutive key n }

-- What both records do at their threshold: the status, the metric, and the count from 0.
abbrev pub turn : Ref → Bool → Site → Site
turn b up s = record s {
  heap =
      if (if up then is_alive s.heap b else not (is_alive s.heap b))
      then s.heap
      else set_alive s.heap b up;
  metrics = set_backend_up s.metrics (url_of s.heap b) up;
  checker = set_consecutive s.checker (url_of s.heap b) (pos 0);
}

abbrev pub count : Ref → ℤ → Site → Site
count b n s = record s { checker = set_consecutive s.checker (url_of s.heap b) n }

unfoldable pub record_success : Ref → Site → Site
record_success b s =
    let before = consecutive_of s (url_of s.heap b) in
    let n = (if ltb_ℤ before (pos 0) then pos 0 else before) +ℤ pos 1 in
    if leb_ℤ s.checker.healthy_threshold n then turn b true s else count b n s

unfoldable pub record_failure : Ref → Site → Site
record_failure b s =
    let before = consecutive_of s (url_of s.heap b) in
    let n = (if ltb_ℤ (pos 0) before then pos 0 else before) -ℤ pos 1 in
    if leb_ℤ s.checker.unhealthy_threshold (pos 0 -ℤ n) then turn b false s else count b n s

-- What a probe of `target` brings: no request, no response, or a response with a status.
pub data Probe : Type 0 where
  bad_request : Probe
  no_response : Probe
  responded : (status_code : ℕ) → Probe

abbrev pub healthy : Probe → Bool
healthy bad_request = false
healthy no_response = false
healthy (responded code) = not (ltb code 200 || leb 300 code)

unfoldable pub check_backend : Ref → Probe → Site → Site
check_backend b probe s = if healthy probe then record_success b s else record_failure b s

unfoldable pub update_config : HealthChecker → String → ℤ → ℤ → ℤ → ℤ → HealthChecker
update_config hc path interval timeout unhealthy_threshold healthy_threshold = record hc {
  path = path;
  interval = if ltb_ℤ (pos 0) interval then interval else hc.interval;
  timeout = if ltb_ℤ (pos 0) timeout then timeout else hc.timeout;
  client = if ltb_ℤ (pos 0) timeout then timeout else hc.client;
  unhealthy_threshold = at_least_one unhealthy_threshold;
  healthy_threshold = at_least_one healthy_threshold;
}

-- The probes of a round, in the order in which they take the checker's lock.
unfoldable pub check_all : List (Ref × Probe) → Site → Site
check_all [] s = s
check_all ((b, probe) ∷ rest) s = check_all rest (check_backend b probe s)

-- The loop that drops the counts of backends that have left the pool.
unfoldable pub prune : ServerPool → Site → Site
prune bs s = record s {
  checker = record s.checker {
    consecutive = λ key. if has_url s.heap key bs then s.checker.consecutive key else none;
  };
}

-- One tick of `Start`: a round, then the ticker's interval and the counts.
unfoldable pub tick : ServerPool → List (Ref × Probe) → ℤ × Site → ℤ × Site
tick bs probes (current_interval, s) =
    let s' = check_all probes s in (s'.checker.interval, prune bs s')
