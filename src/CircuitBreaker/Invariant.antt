-- ===== src/CircuitBreaker/Invariant.antt =====
-- internal/circuitbreaker/circuitbreaker.go: what holds of a breaker between two calls.
use go_lb.Base.{ℕ, suc, ◌+◌, ◌≤◌, ◌<◌, ◌≡◌, List, [], ◌∷◌, arith}
use go_lb.Base.Int.{ℤ}
use go_lb.CircuitBreaker.{
  State, closed, opened, half_open, Breaker, new_breaker, millisecond, allow, record_success,
  record_failure, Call, allows, succeeds, fails, step, run,
}

pub record Inv (b : Breaker) : Type 0 where
  pub thresholds : (0 < b.failure_threshold) × (0 < b.success_threshold)
  pub waits : millisecond ≤ b.timeout
  pub failing : b.failures < b.failure_threshold
  pub succeeding : b.successes < b.success_threshold
  pub fresh_closed : b.state ≡ closed → b.successes ≡ 0
  pub fresh_half_open : b.state ≡ half_open → b.failures ≡ 0
  pub fresh_opened : b.state ≡ opened → (b.failures ≡ 0) × (b.successes ≡ 0)

-- Whatever the configured numbers, a new breaker is closed and satisfies the invariant.
pub new_breaker-Inv : (f s t : ℤ) → Inv (new_breaker f s t) × ((new_breaker f s t).state ≡ closed)
unfolding new_breaker
new_breaker-Inv f s t = ground arith

-- Every call keeps the invariant: the counters stay under the thresholds, and are 0 where the
-- state does not count.
pub step-Inv : (b : Breaker) (c : Call) → Inv b → Inv (step b c)
unfolding step allow record_success record_failure
step-Inv b (allows now) v = ground arith
step-Inv b succeeds v = ground arith
step-Inv b (fails now) v = ground arith

pub run-Inv : (b : Breaker) (cs : List Call) → Inv b → Inv (run b cs)
unfolding run
run-Inv b [] v = v
run-Inv b (c ∷ cs) v = run-Inv (step b c) cs (step-Inv b c v)

-- The transition diagram.
pub data Edge (b : Breaker) : Call → State → State → Type 0 where
  stay : {c : Call} {s : State} → Edge b c s s
  trips : {now : ℕ} → suc b.failures ≡ b.failure_threshold → Edge b (fails now) closed opened
  probes : {now : ℕ} → b.last_failure + b.timeout ≤ now → Edge b (allows now) opened half_open
  recovers : suc b.successes ≡ b.success_threshold → Edge b succeeds half_open closed
  relapses : {now : ℕ} → Edge b (fails now) half_open opened

-- Under the invariant a call changes the state only along the diagram: it opens by the failure that
-- reaches the threshold, is half-open by an `Allow` once the timeout has passed, and from there
-- closes by the success that reaches its threshold or opens by any failure.
pub step-Edge : (b : Breaker) (c : Call) → Inv b → Edge b c b.state (step b c).state
unfolding step allow record_success record_failure
step-Edge b (allows now) v = grind (arith, stay, probes)
step-Edge b succeeds v = grind (arith, stay, recovers)
step-Edge b (fails now) v = grind (arith, stay, trips, relapses)
