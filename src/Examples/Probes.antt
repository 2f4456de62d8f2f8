-- ===== src/Examples/Probes.antt =====
-- internal/health: the health checker with its default thresholds, 3 and 2.
use go_lb.Health.Thresholds.{Quiet, Turned, streak_turns}
use go_lb.Metrics.{no_metrics}
use go_lb.Base.{ℕ, ◌+◌, ◌≤◌, refl, false, [], ◌∷◌, arith, replicate, empty_map}
use go_lb.Base.Int.{pos, ◌<ℤ◌}
use go_lb.Examples.Data.{heap, pair}
use go_lb.Health.{tick, Site, HealthChecker, responded, no_response, check_all}
use go_lb.Health.Invariant.{Inv, tick-Inv}

abbrev pub checker : HealthChecker
checker = record {
  path = "/health";
  interval = pos 10;
  timeout = pos 2;
  unhealthy_threshold = pos 3;
  healthy_threshold = pos 2;
  client = pos 2;
  consecutive = empty_map;
}

abbrev site : Site
site = record { heap = heap; metrics = no_metrics; checker = checker }

site-Inv : Inv site
site-Inv = record {
  valid = record {
    interval = omega arith;
    timeout = omega arith;
    client = refl;
    unhealthy = omega arith;
    healthy = omega arith;
  };
  short = λ key. (omega arith, omega arith);
}

streak_turns_example :
    ((m : ℕ) → m ≤ 2 → Quiet 0 false 3 (0 + m) site (check_all (replicate m (0, no_response)) site))
    × Turned 0 false site (check_all (replicate 3 (0, no_response)) site)
streak_turns_example = streak_turns 0 no_response 3 2 site refl refl

tick-Inv_example :
    Inv (tick pair ((1, responded 200) ∷ (0, no_response) ∷ []) (pos 10, site)).1
    × (pos 0 <ℤ (tick pair ((1, responded 200) ∷ (0, no_response) ∷ []) (pos 10, site)).0)
tick-Inv_example = tick-Inv pair ((1, responded 200) ∷ (0, no_response) ∷ []) (pos 10) site site-Inv
