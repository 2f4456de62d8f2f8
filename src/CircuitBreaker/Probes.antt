-- ===== src/CircuitBreaker/Probes.antt =====
-- internal/circuitbreaker/circuitbreaker.go: which requests are out as probes of a half-open breaker.
-- The methods do not know which request calls them; here every call carries its request.
use go_lb.Base.{
  ℕ, ◌+◌, ◌≤◌, ◌<◌, ◌≡◌, refl, ◌≢◌, Bool, true, false, not, ◌&&◌, List, [], ◌∷◌, arith, ◌==◌,
  if◌then◌else◌, length, In, here, there, filterb,
}
use go_lb.CircuitBreaker.{State, closed, half_open, Breaker, allow, record_success, record_failure}

pub data Act : Type 0 where
  asks : (id now : ℕ) → Act  -- `Allow`, before the request is sent
  succeeds : (id : ℕ) → Act  -- `RecordSuccess`, when its answer is there
  fails : (id now : ℕ) → Act  -- `RecordFailure`

abbrev is_half_open : State → Bool
is_half_open half_open = true
is_half_open _ = false

-- The requests that were let through by the half-open breaker and have no result yet, newest first.
pub record Trial : Type 0 where
  pub breaker : Breaker
  pub probes : List ℕ

abbrev without : ℕ → List ℕ → List ℕ
without id = filterb (λ p. not (p == id))

abbrev asked : ℕ → List ℕ → Breaker × Bool → Trial
asked id ps (b, let_through) = record {
  breaker = b;
  probes = if let_through && is_half_open b.state then id ∷ ps else ps;
}

unfoldable pub act : Trial → Act → Trial
act t (asks id now) = asked id t.probes (allow now t.breaker)
act t (succeeds id) = record { breaker = record_success t.breaker; probes = without id t.probes }
act t (fails id now) = record {
  breaker = record_failure now t.breaker;
  probes = without id t.probes;
}

unfoldable pub acts : Trial → List Act → Trial
acts t [] = t
acts t (a ∷ rest) = acts (act t a) rest

-- While the breaker is half-open, only the results of its probes come in.
abbrev pub OnTime : Trial → Act → Type 0
OnTime t (asks id now) = Unit {0}
OnTime t (succeeds id) = t.breaker.state ≡ half_open → In id t.probes
OnTime t (fails id now) = t.breaker.state ≡ half_open → In id t.probes

pub data AllOnTime : Trial → List Act → Type 0 where
  done : {t : Trial} → AllOnTime t []
  later :
      {t : Trial} {a : Act} {rest : List Act}
      → OnTime t a
      → AllOnTime (act t a) rest
      → AllOnTime t (a ∷ rest)

-- At most one probe is out, none while the permit is there, and none of a breaker in another state.
pub record OneProbe (t : Trial) : Type 0 where
  pub few : length t.probes ≤ 1
  pub free : t.breaker.state ≡ half_open → t.breaker.half_open_permit ≡ true → t.probes ≡ []
  pub idle : t.breaker.state ≢ half_open → t.probes ≡ []

few-without : (id : ℕ) (ps : List ℕ) → length ps ≤ 1 → In id ps → without id ps ≡ []
few-without id [] few m = refl
few-without id (p ∷ []) few here = ground arith
few-without id (p ∷ []) few (there m) = elim m [ ]
few-without id (p ∷ q ∷ ps) few m = absurd (omega arith)

act-OneProbe : (t : Trial) (a : Act) → OnTime t a → OneProbe t → OneProbe (act t a)
unfolding act allow record_success record_failure
act-OneProbe t (asks id now) o v = ground (arith, v.few, v.free, v.idle)
act-OneProbe t (succeeds id) o v = ground (arith, o, v.few, v.free, v.idle, few-without id t.probes)
act-OneProbe t (fails id now) o v =
    ground (arith, o, v.few, v.free, v.idle, few-without id t.probes)

-- From a state with at most one probe out, and as long as no result of another request comes in while
-- the breaker is half-open, at most one probe is out after every sequence of calls, at whatever times;
-- none is while the permit is there, or in another state.
pub acts-OneProbe :
    (t : Trial) (calls : List Act) → AllOnTime t calls → OneProbe t → OneProbe (acts t calls)
unfolding acts
acts-OneProbe t [] done v = v
acts-OneProbe t (a ∷ rest) (later o os) v = acts-OneProbe (act t a) rest os (act-OneProbe t a o v)

-- A late result lets a second probe out while the first is under way. Let a closed breaker that has to
-- see two successes or more, and has counted none, be one failure short of its threshold. A request is
-- let through, another fails and opens the breaker, and after the timeout a third is let through as a
-- probe. When now the first one succeeds, a fourth is let through as a probe too, and two probes are
-- out.
pub late_success_admits :
    (b : Breaker) (late bad probe next first tripped probed again : ℕ)
    → b.state ≡ closed
    → b.failures + 1 ≡ b.failure_threshold
    → b.successes ≡ 0
    → 1 < b.success_threshold
    → tripped + b.timeout ≤ probed
    → late ≢ probe
    → (acts
        (record { breaker = b; probes = [] })
        (asks late first
          ∷ asks bad first
          ∷ fails bad tripped
          ∷ asks probe probed
          ∷ succeeds late
          ∷ asks next again
          ∷ [])).probes
      ≡ next ∷ probe ∷ []
unfolding acts act allow record_success record_failure
late_success_admits b late bad probe next first tripped probed again c f z m t apart =
    ground (arith, apart)
