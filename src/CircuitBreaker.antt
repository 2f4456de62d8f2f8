-- ===== src/CircuitBreaker.antt =====
-- internal/circuitbreaker/circuitbreaker.go. Each method runs under the breaker's lock, so it is a
-- function on the breaker; times and durations are in nanoseconds, and the clock is an argument.
-- `State` is an int in the source, and no other value than the three is ever stored, so the
-- `default` branches do not occur.
pub mod Invariant
pub mod Traces
pub mod Probes
pub mod Registry
use go_lb.Base.{ℕ, ◌+◌, ◌-◌, String, Bool, true, false, List, [], ◌∷◌, leb, if◌then◌else◌}
use go_lb.Base.Int.{ℤ, pos, pos_part, ltb_ℤ}

-- `opened` stands for `Open`, which is a reserved word here.
pub data State : Type 0 where
  closed opened half_open : State

unfoldable pub state_string : State → String
state_string closed = "closed"
state_string opened = "open"
state_string half_open = "half-open"

pub record Config : Type 0 where
  pub failure_threshold : ℤ
  pub success_threshold : ℤ
  pub timeout : ℤ

pub record Breaker : Type 0 where
  pub state : State
  pub failures : ℕ
  pub successes : ℕ
  pub failure_threshold : ℕ
  pub success_threshold : ℕ
  pub timeout : ℕ
  pub last_failure : ℕ
  pub half_open_permit : Bool

abbrev pub millisecond : ℕ
millisecond = 1_000_000

-- `if x < low { x = low }` for a positive bound, after which the int is a number.
abbrev pub at_least : ℕ → ℤ → ℕ
at_least low x = if ltb_ℤ x (pos low) then low else pos_part x

-- The zero time of `lastFailure` is never read: it is set before the breaker opens.
unfoldable pub new_breaker : ℤ → ℤ → ℤ → Breaker
new_breaker failure_threshold success_threshold timeout = record {
  state = closed;
  failures = 0;
  successes = 0;
  failure_threshold = at_least 1 failure_threshold;
  success_threshold = at_least 1 success_threshold;
  timeout = at_least millisecond timeout;
  last_failure = 0;
  half_open_permit = false;
}

-- `halfOpenPermit.CompareAndSwap(true, false)`
abbrev take_permit : Breaker → Breaker × Bool
take_permit b =
    if b.half_open_permit then (record b { half_open_permit = false }, true) else (b, false)

-- `time.Since(b.lastFailure) >= b.timeout`
abbrev pub timed_out : ℕ → Breaker → Bool
timed_out now b = leb b.timeout (now - b.last_failure)

allow_in : State → ℕ → Breaker → Breaker × Bool
allow_in closed now b = (b, true)
allow_in opened now b =
    if timed_out now b
    then take_permit (record b { state = half_open; half_open_permit = true })
    else (b, false)
allow_in half_open now b = take_permit b

unfoldable pub allow : ℕ → Breaker → Breaker × Bool
unfolding allow_in
allow now b = allow_in b.state now b

record_success_in : State → Breaker → Breaker
record_success_in half_open b =
    let counted = record b { successes = b.successes + 1 } in
    let settled =
      if leb b.success_threshold (b.successes + 1)
      then record counted { state = closed; failures = 0; successes = 0 }
      else counted in
    record settled { half_open_permit = true }
record_success_in closed b = record b { failures = 0 }
record_success_in opened b = b

unfoldable pub record_success : Breaker → Breaker
unfolding record_success_in
record_success b = record_success_in b.state b

abbrev trip : ℕ → Breaker → Breaker
trip now b = record b { state = opened; last_failure = now; failures = 0; successes = 0 }

record_failure_in : State → ℕ → Breaker → Breaker
record_failure_in closed now b =
    let counted = record b { failures = b.failures + 1 } in
    if leb b.failure_threshold (b.failures + 1) then trip now counted else counted
record_failure_in half_open now b = trip now b
record_failure_in opened now b = b

unfoldable pub record_failure : ℕ → Breaker → Breaker
unfolding record_failure_in
record_failure now b = record_failure_in b.state now b

eligible_in : State → ℕ → Breaker → Bool
eligible_in closed now b = true
eligible_in opened now b = timed_out now b
eligible_in half_open now b = b.half_open_permit

unfoldable pub eligible : ℕ → Breaker → Bool
unfolding eligible_in
eligible now b = eligible_in b.state now b

-- The calls that other packages make, each with the time that it reads.
pub data Call : Type 0 where
  allows : (now : ℕ) → Call
  succeeds : Call
  fails : (now : ℕ) → Call

unfoldable pub step : Breaker → Call → Breaker
step b (allows now) = (allow now b).0
step b succeeds = record_success b
step b (fails now) = record_failure now b

unfoldable pub run : Breaker → List Call → Breaker
run b [] = b
run b (c ∷ cs) = run (step b c) cs
