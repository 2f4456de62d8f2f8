-- ===== src/CircuitBreaker/Traces.antt =====
-- internal/circuitbreaker/circuitbreaker.go: what sequences of calls do.
use go_lb.Base.{
  ℕ, zero, suc, ◌+◌, ◌-◌, ◌≤◌, ◌<◌, ◌≡◌, refl, sym, ap, ◌∙◌, subst, true, false, List, [], ◌∷◌,
  arith, dec_lt, length, All,
}
use go_lb.CircuitBreaker.{
  closed, opened, half_open, Breaker, allow, record_success, record_failure, eligible, Call, allows,
  succeeds, fails, step, run,
}
use go_lb.CircuitBreaker.Invariant.{Inv}

-- `Eligible` answers what `Allow` would, in every state and at every time.
pub eligible-allow : (now : ℕ) (b : Breaker) → eligible now b ≡ (allow now b).1
unfolding eligible allow
eligible-allow now b = ground arith

-- A call comes before the timeout is over; the records of results may come at any time.
abbrev pub Before : ℕ → Call → Type 0
Before limit (allows now) = now < limit
Before limit succeeds = Unit {0}
Before limit (fails now) = Unit {0}

step_opened :
    (b : Breaker) (c : Call)
    → b.state ≡ opened
    → Before (b.last_failure + b.timeout) c
    → 0 < b.timeout
    → step b c ≡ b
unfolding step allow record_success record_failure
step_opened b (allows now) o t w = ground arith
step_opened b succeeds o t w = ground arith
step_opened b (fails now) o t w = ground arith

opened_stays :
    (b : Breaker) (cs : List Call)
    → b.state ≡ opened
    → 0 < b.timeout
    → All (Before (b.last_failure + b.timeout)) cs
    → run b cs ≡ b
unfolding run
opened_stays b [] o w t = refl
opened_stays b (c ∷ cs) o w t =
    ap (λ k. run k cs) (step_opened b c o t.0 w) ∙ opened_stays b cs o w t.1

opened_refuses :
    (b : Breaker) (now : ℕ)
    → b.state ≡ opened
    → 0 < b.timeout
    → now < b.last_failure + b.timeout
    → (allow now b).1 ≡ false
unfolding allow
opened_refuses b now o w lt = ground arith

-- Until its timeout is over an open breaker ignores every call, in any order and number: results
-- that come late do not change it, and `Allow` refuses all requests.
pub opened_holds :
    (b : Breaker) (cs : List Call) (now : ℕ)
    → b.state ≡ opened
    → 0 < b.timeout
    → All (Before (b.last_failure + b.timeout)) cs
    → now < b.last_failure + b.timeout
    → (run b cs ≡ b) × ((allow now (run b cs)).1 ≡ false)
opened_holds b cs now o w t lt =
    let same = opened_stays b cs o w t in
    (same, ap (λ k. (allow now k).1) same ∙ opened_refuses b now o w lt)

record_failure-count :
    (b : Breaker) (now : ℕ)
    → b.state ≡ closed
    → b.failures + 1 < b.failure_threshold
    → record_failure now b ≡ record b { failures = b.failures + 1 }
unfolding record_failure
record_failure-count b now c f = ground arith

record_failure-trip :
    (b : Breaker) (now : ℕ)
    → b.state ≡ closed
    → b.failures + 1 ≡ b.failure_threshold
    → (record_failure now b).state ≡ opened
unfolding record_failure
record_failure-trip b now c f = ground arith

-- `n` failures in a row.
abbrev pub failing : List ℕ → List Call
failing [] = []
failing (t ∷ ts) = fails t ∷ failing ts

-- From a closed breaker, failures in a row leave it closed as long as they are fewer than are
-- missing to the threshold, and the one that reaches it opens it.
pub failures_trip :
    (b : Breaker) (times : List ℕ)
    → b.state ≡ closed
    → b.failures < b.failure_threshold
    → (b.failures + length times < b.failure_threshold → (run b (failing times)).state ≡ closed)
      × (b.failures + length times ≡ b.failure_threshold → (run b (failing times)).state ≡ opened)
unfolding run step
failures_trip b [] c f = (λ _. c, λ e. absurd (omega arith))
failures_trip b (t ∷ []) c f = (
  λ lt. rw (record_failure-count b t c (omega arith)) c,
  λ e. record_failure-trip b t c (omega arith),
)
failures_trip b (t ∷ u ∷ ts) c f = elim (dec_lt (b.failures + 1) b.failure_threshold) [
  | yes lt ↦
      let (more, last) = failures_trip (record b { failures = b.failures + 1 }) (u ∷ ts) c lt in
      rw (record_failure-count b t c lt, run) (λ k. more (omega arith), λ e. last (omega arith))
  | no ge ↦ (λ k. absurd (omega arith), λ e. absurd (omega arith))
]

allow_taken :
    (b : Breaker) (now : ℕ)
    → b.state ≡ half_open
    → b.half_open_permit ≡ false
    → allow now b ≡ (b, false)
unfolding allow
allow_taken b now h p = ground arith

abbrev pub allowing : List ℕ → List Call
allowing [] = []
allowing (t ∷ ts) = allows t ∷ allowing ts

-- A half-open breaker whose permit is taken refuses every `Allow` until a result is recorded.
pub half_open_one_probe :
    (b : Breaker) (times : List ℕ) (now : ℕ)
    → b.state ≡ half_open
    → b.half_open_permit ≡ false
    → (run b (allowing times) ≡ b) × ((allow now (run b (allowing times))).1 ≡ false)
unfolding run step
half_open_one_probe b [] now h p = (refl, ap (λ r. r.1) (allow_taken b now h p))
half_open_one_probe b (t ∷ ts) now h p =
    let rest = half_open_one_probe b ts now h p in
    let first = ap (λ r. run r.0 (allowing ts)) (allow_taken b t h p) in
    (first ∙ rest.0, ap (λ r. (allow now r).1) first ∙ rest.1)

-- `n` probes, each allowed at `now` and successful.
abbrev pub probing : ℕ → ℕ → List Call
probing zero now = []
probing (suc n) now = allows now ∷ succeeds ∷ probing n now

record_success-probe :
    (b : Breaker) (now : ℕ)
    → b.state ≡ half_open
    → b.half_open_permit ≡ true
    → (b.successes + 1 < b.success_threshold
        → record_success (allow now b).0 ≡ record b { successes = b.successes + 1 })
      × (b.success_threshold ≤ b.successes + 1 → (record_success (allow now b).0).state ≡ closed)
unfolding allow record_success
record_success-probe b now h p = ground arith

probing_half_open :
    (n : ℕ) (b : Breaker) (now : ℕ)
    → b.state ≡ half_open
    → b.half_open_permit ≡ true
    → b.successes + suc n ≡ b.success_threshold
    → (run b (probing (suc n) now)).state ≡ closed
unfolding run step
probing_half_open zero b now h p e = (record_success-probe b now h p).1 (omega arith)
probing_half_open (suc n) b now h p e =
    ap (λ k. (run k (probing (suc n) now)).state) ((record_success-probe b now h p).0 (omega arith))
    ∙ (probing_half_open n (record b { successes = b.successes + 1 }) now h p (omega arith))

allow-probe :
    (b : Breaker) (now : ℕ)
    → b.state ≡ opened
    → b.last_failure + b.timeout ≤ now
    → allow now b ≡ (record b { state = half_open; half_open_permit = false }, true)
unfolding allow
allow-probe b now o t = ground arith

success-probe :
    (b : Breaker) (now : ℕ)
    → b.state ≡ opened
    → b.last_failure + b.timeout ≤ now
    → b.successes ≡ 0
    → (b.success_threshold ≡ 1 → (record_success (allow now b).0).state ≡ closed)
      × (1 < b.success_threshold
          → record_success (allow now b).0
            ≡ record b { state = half_open; half_open_permit = true; successes = 1 })
unfolding record_success
success-probe b now o t z = ground (arith, allow-probe b now o t)

recover_from :
    (k : ℕ) (b : Breaker) (now : ℕ)
    → b.state ≡ opened
    → b.last_failure + b.timeout ≤ now
    → b.successes ≡ 0
    → b.success_threshold ≡ suc k
    → (run b (probing (suc k) now)).state ≡ closed
unfolding run step
recover_from zero b now o t z e = (success-probe b now o t z).0 e
recover_from (suc k) b now o t z e =
    let b' = record b { state = half_open; half_open_permit = true; successes = 1 } in
    ap (λ r. (run r (probing (suc k) now)).state) ((success-probe b now o t z).1 (omega arith))
    ∙ probing_half_open k b' now refl refl (omega arith)

-- An open breaker that satisfies the invariant recovers: once the timeout is over the next request
-- is let through, and after as many successful probes as the threshold says it is closed.
pub recovery :
    (b : Breaker) (now : ℕ)
    → Inv b
    → b.state ≡ opened
    → b.last_failure + b.timeout ≤ now
    → ((allow now b).1 ≡ true) × ((run b (probing b.success_threshold now)).state ≡ closed)
recovery b now v o t =
    let count : b.success_threshold ≡ suc (b.success_threshold - 1) = omega arith in
    (
      ap (λ r. r.1) (allow-probe b now o t),
      subst (λ k. (run b (probing k now)).state ≡ closed) (sym count)
          (recover_from (b.success_threshold - 1) b now o t (v.fresh_opened o).1 count),
    )
