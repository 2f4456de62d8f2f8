-- ===== src/Proxy/Overlap/Exchanges.antt =====
-- internal/proxy/proxy.go: how many exchanges a request makes, whatever runs between its moves.
use go_lb.Base.{
  ℕ, zero, suc, ◌+◌, ◌-◌, ◌*◌, ◌≤◌, ◌≡◌, refl, Bool, true, false, Option, none, some, List, [], ◌∷◌,
  arith, ltb, if◌then◌else◌,
}
use go_lb.Backend.{Ref, url_of}
use go_lb.CircuitBreaker.{allow}
use go_lb.Proxy.{
  idempotent, nothing, unavailable, Env, World, Reply, answered, failed, Request,
  max_backend_switches, get_attempts_from_context, get_retry_from_context, next_attempt, next_retry,
  retriable, on_breaker, choose,
}
use go_lb.Proxy.Bounds.{
  trips, trips_left, switches_left, left-le, left-next, trips_left-pos, spend, spend_next,
}
use go_lb.Proxy.Overlap.{
  Frame, Stage, entering, filtering, selecting, asking, beginning, sending, awaiting, pausing,
  marking, blaming, returning, rating, ending, Thread, arrived, move, chosen_at, asked_at,
  answered_at,
}

-- The exchanges that the next attempts may make, and those that a place may.
abbrev later : Request → ℕ
later r = (max_backend_switches - get_attempts_from_context r - 1) * trips r.method

abbrev left : Stage → ℕ
left (entering r) = switches_left r * trips r.method
left (filtering r _ _ _) = trips r.method + later r
left (selecting r _) = trips r.method + later r
left (asking r _) = trips r.method + later r
left (beginning r _) = trips r.method + later r
left (sending _ r) = trips_left r + later r
left (awaiting _ _ r) = trips_left r - 1 + later r
left (pausing _ _ r) = trips_left (next_retry r) + later r
left (marking _ r) = later r
left (blaming _ r) = later r
left (returning _) = 0
left (rating _) = 0
left (ending _) = 0

-- The exchanges that a move makes.
abbrev pub sends : Stage → ℕ
sends (sending _ _) = 1
sends _ = 0

module _ (env : Env) where
  chosen-left :
      (r : Request) (fs : List Frame) (a : Option Ref × World)
      → left (chosen_at r fs a).1.stage ≤ trips r.method + later r
  chosen-left r fs (none, w) = omega arith
  chosen-left r fs (some peer, w) = omega arith

  next-left : (r : Request) → left (entering (next_attempt r)) ≡ later r
  next-left r = spend_next env (get_attempts_from_context r) (trips r.method)

  asked-left :
      (r : Request) (peer : Ref) (fs : List Frame) (a : World × Bool)
      → left (asked_at r peer fs a).1.stage ≤ trips r.method + later r
  asked-left r peer fs (w, false) = omega (arith, next-left r)
  asked-left r peer fs (w, true) = omega arith

  either-left :
      (p : Bool) (s s' : Stage) (k : ℕ)
      → (p ≡ true → left s ≤ k)
      → left s' ≤ k
      → left (if p then s else s') ≤ k
  either-left true s s' k a b = a refl
  either-left false s s' k a b = b

  answered-left :
      (n : ℕ) (b : Ref) (r : Request) (fs : List Frame) (w : World) (reply : Reply)
      → left (answered_at n b r fs w reply).1.stage ≤ left (awaiting n b r)
  answered-left n b r fs w (answered code) = omega arith
  answered-left n b r fs w failed =
      either-left (retriable r) (pausing n b r) (marking b r) (left (awaiting n b r))
        (λ t. omega (arith, left-next (get_retry_from_context r) (idempotent r.method) t))
        (omega arith)

  move-left :
      (s : Stage) (fs : List Frame) (w : World) → sends s + left (move env s fs w).1.stage ≤ left s
  unfolding move
  move-left (entering r) fs w =
      ground (arith, spend env (get_attempts_from_context r) (trips r.method))
  move-left (filtering r all [] filtered) fs w = omega arith
  move-left (filtering r all (b ∷ rest) filtered) fs w = omega arith
  move-left (selecting r bs) fs w = omega (arith, chosen-left r fs (choose env r w bs))
  move-left (asking r peer) fs w =
      omega (arith, asked-left r peer fs (on_breaker env (url_of w.heap peer) allow w))
  move-left (beginning r peer) fs w =
      omega (arith, left-le (get_retry_from_context r) (idempotent r.method))
  move-left (sending b r) fs w = omega (arith, trips_left-pos r)
  move-left (awaiting n b r) fs w = omega (arith, answered-left n b r fs w (env.round_trip n b r))
  move-left (pausing n b r) fs w = omega (
    arith,
    either-left (env.client_gone n) (returning nothing) (sending b (next_retry r))
        (left (pausing n b r)) (λ t. omega arith) (omega arith),
  )
  move-left (marking b r) fs w = omega arith
  move-left (blaming b r) fs w = omega (
    arith,
    either-left (ltb (get_attempts_from_context r) max_backend_switches) (entering (next_attempt r))
        (returning unavailable) (later r) (λ t. omega (arith, next-left r)) (omega arith),
  )
  move-left (returning resp) [] w = omega arith
  move-left (returning resp) (f ∷ fs) w = ground arith
  move-left (rating resp) [] w = omega arith
  move-left (rating resp) (f ∷ fs) w = omega arith
  move-left (ending resp) [] w = omega arith
  move-left (ending resp) (f ∷ fs) w = omega arith

  -- The exchanges of the first moves of a thread.
  pub exchanges : (ℕ → World) → ℕ → Thread → ℕ
  exchanges seen zero t = 0
  exchanges seen (suc n) t =
      sends t.stage + exchanges (λ k. seen (suc k)) n (move env t.stage t.frames (seen 0)).1

  exchanges-le : (n : ℕ) (seen : ℕ → World) (t : Thread) → exchanges seen n t ≤ left t.stage
  unfolding exchanges
  exchanges-le zero seen t = omega arith
  exchanges-le (suc n) seen t = omega (
    arith,
    move-left t.stage t.frames (seen 0),
    exchanges-le n (λ k. seen (suc k)) (move env t.stage t.frames (seen 0)).1,
  )

  -- Whatever happens between the moves of a request, it makes at most one exchange for every attempt
  -- that is left, four if its method is idempotent.
  pub exchanges-trips :
      (n : ℕ) (r : Request) (seen : ℕ → World)
      → exchanges seen n (arrived r) ≤ switches_left r * trips r.method
  exchanges-trips n r seen = exchanges-le n seen (arrived r)
