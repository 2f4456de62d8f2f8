-- ===== src/Examples/Breakers.antt =====
-- internal/circuitbreaker: a breaker that opens at 3 failures, for 2 ms, and closes after 2 probes.
use go_lb.CircuitBreaker.Traces.{probing, recovery, opened_holds, failures_trip, failing}
use go_lb.Base.{
  ℕ, ◌+◌, ◌<◌, ◌≡◌, refl, true, false, List, [], ◌∷◌, arith, length, here, empty_map, insert,
}
use go_lb.Base.Int.{pos}
use go_lb.CircuitBreaker.{
  closed, opened, half_open, fails, succeeds, allows, Breaker, step, allow, record_success,
  record_failure, run,
}
use go_lb.CircuitBreaker.Probes
use go_lb.CircuitBreaker.Probes.{
  Act, asks, act, acts, later, done, OneProbe, acts-OneProbe, late_success_admits,
}
use go_lb.CircuitBreaker.Registry.{Registry}
use go_lb.CircuitBreaker.Invariant.{Inv, Edge, step-Edge}

abbrev working : Breaker
working = record {
  state = closed;
  failures = 2;
  successes = 0;
  failure_threshold = 3;
  success_threshold = 2;
  timeout = 2_000_000;
  last_failure = 0;
  half_open_permit = false;
}

abbrev broken : Breaker
broken = record working { state = opened; failures = 0; last_failure = 5 }

abbrev probed : Breaker
probed = record working { state = half_open; failures = 0 }

working-Inv : Inv working
working-Inv = record {
  thresholds = (omega arith, omega arith);
  waits = omega arith;
  failing = omega arith;
  succeeding = omega arith;
  fresh_closed = λ e. refl;
  fresh_half_open = λ e. ground arith;
  fresh_opened = λ e. ground arith;
}

broken-Inv : Inv broken
broken-Inv = record {
  thresholds = (omega arith, omega arith);
  waits = omega arith;
  failing = omega arith;
  succeeding = omega arith;
  fresh_closed = λ e. refl;
  fresh_half_open = λ e. refl;
  fresh_opened = λ e. (refl, refl);
}

step-Edge_example : Edge working (fails 7) closed (step working (fails 7)).state
step-Edge_example = step-Edge working (fails 7) working-Inv

recovery_example :
    ((allow 2_000_005 broken).1 ≡ true) × ((run broken (probing 2 2_000_005)).state ≡ closed)
recovery_example = recovery broken 2_000_005 broken-Inv refl (omega arith)

opened_holds_example :
    (run broken (allows 9 ∷ succeeds ∷ []) ≡ broken)
    × ((allow 10 (run broken (allows 9 ∷ succeeds ∷ []))).1 ≡ false)
opened_holds_example =
    opened_holds broken (allows 9 ∷ succeeds ∷ []) 10 refl (omega arith) (omega arith, (tt, tt))
      (omega arith)

failures_trip_example :
    (2 + length {A = ℕ} (7 ∷ []) < 3 → (run working (failing (7 ∷ []))).state ≡ closed)
    × (2 + length {A = ℕ} (7 ∷ []) ≡ 3 → (run working (failing (7 ∷ []))).state ≡ opened)
failures_trip_example = failures_trip working (7 ∷ []) refl (omega arith)

-- The breaker opens by request 1, and 2 is its probe.
abbrev calls : List Act
calls = asks 1 3 ∷ Probes.fails 1 4 ∷ asks 2 2_000_005 ∷ Probes.succeeds 2 ∷ []

acts-OneProbe_example : OneProbe (acts (record { breaker = working; probes = [] }) calls)
unfolding allow record_success record_failure act
acts-OneProbe_example =
    acts-OneProbe (record { breaker = working; probes = [] }) calls
      (later tt (later (λ e. absurd (ground (arith, e))) (later tt (later (λ e. here) done))))
      (record { few = omega arith; free = λ e p. refl; idle = λ n. refl })

late_success_admits_example :
    (acts
      (record { breaker = working; probes = [] })
      (asks 1 2
        ∷ asks 2 2
        ∷ Probes.fails 2 5
        ∷ asks 3 2_000_005
        ∷ Probes.succeeds 1
        ∷ asks 4 2_000_006
        ∷ [])).probes
    ≡ 4 ∷ 3 ∷ []
late_success_admits_example =
    late_success_admits working 1 2 3 4 2 5 2_000_005 2_000_006 refl refl refl (omega arith)
      (omega arith) (omega arith)

abbrev registry : Registry
registry = record {
  breakers = insert empty_map "http://a" working;
  cfg = record { failure_threshold = pos 3; success_threshold = pos 2; timeout = pos 2_000_000 };
}
