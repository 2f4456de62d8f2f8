-- ===== src/Proxy/Overlap.antt =====
-- internal/proxy/proxy.go: requests that are handled at the same time, each by a goroutine of its
-- own. Between two accesses of what they share any other goroutine may run.
--
-- A thread is one request: where its innermost call of `ServeHTTP` stands, and a frame for each call
-- that waits below it for its reverse proxy. One move makes one access of what is shared: a reading
-- of the pool, a call on one breaker, the choice of a backend, an exchange's start or end.
pub mod Alone
pub mod Ends
pub mod Answers
pub mod Exchanges
pub mod Effects
pub mod Known
pub mod Turns
use go_lb.Base.{
  ℕ, zero, suc, ◌≡◌, Bool, true, false, Option, none, some, List, [], ◌∷◌, ◌++◌, ltb, leb, ◌==◌,
  if◌then◌else◌, length,
}
use go_lb.Backend.{Ref, url_of}
use go_lb.Pool.{backends}
use go_lb.CircuitBreaker.Registry.{Registry}
use go_lb.CircuitBreaker.{eligible, allow, record_success, record_failure}
use go_lb.Sticky.{Cookie}
use go_lb.Proxy.{
  Env, World, Reply, Request, Response, answered, failed, max_backend_switches,
  get_attempts_from_context, unavailable, nothing, wrote, next_attempt, next_retry, retriable,
  on_breaker, choose, begin_frame, end_frame, mark_down, send, recorded, now, tell, status_code,
  peer_cookies, with_request_id,
}

-- A call of `ServeHTTP` from the reverse proxy on: the variables that it reads afterwards.
pub record Frame : Type 0 where
  pub peer : Ref
  pub attempts : ℕ
  pub start : ℕ
  pub request : Request
  pub set_cookies : List Cookie

-- Where a thread stands, with the variables that are live there.
pub data Stage : Type 0 where
  entering : (r : Request) → Stage  -- the first line of `ServeHTTP`
  filtering : (r : Request) (all rest filtered : List Ref) → Stage  -- the loop over the breakers
  selecting : (r : Request) (bs : List Ref) → Stage
  asking : (r : Request) (peer : Ref) → Stage  -- before `Allow`
  beginning : (r : Request) (peer : Ref) → Stage  -- before `IncrConns`
  sending : (b : Ref) (r : Request) → Stage  -- the reverse proxy of `b`
  awaiting : (n : ℕ) (b : Ref) (r : Request) → Stage  -- the answer to exchange `n`
  pausing : (n : ℕ) (b : Ref) (r : Request) → Stage  -- the `select` of the error handler
  marking : (b : Ref) (r : Request) → Stage  -- before `MarkBackendStatus`
  blaming : (b : Ref) (r : Request) → Stage  -- before its `RecordFailure`
  returning : (resp : Response) → Stage  -- the call above the topmost frame has returned
  rating : (resp : Response) → Stage  -- the topmost frame, before the record of its breaker
  ending : (resp : Response) → Stage  -- its deferred calls

pub record Thread : Type 0 where
  pub stage : Stage
  pub frames : List Frame

abbrev pub at : Stage → List Frame → Thread
at s fs = record { stage = s; frames = fs }

-- All backends, if none is left.
abbrev pub or_all : List Ref → List Ref → List Ref
or_all all filtered = if length filtered == 0 then all else filtered

-- A request that has just come.
abbrev pub arrived : Request → Thread
arrived r = at (entering r) []

abbrev pub IsDone : Thread → Type 0
IsDone t = (resp : Response) × (t ≡ at (returning resp) [])

-- The first line of `ServeHTTP`: are all attempts used up, and is there a breaker registry?
abbrev pub entered_at : Request → List Frame → World → Bool → Option Registry → World × Thread
entered_at r fs w true reg = (w, at (returning unavailable) fs)
entered_at r fs w false none = (w, at (selecting r (backends w.pool)) fs)
entered_at r fs w false (some _) = (w, at (filtering r (backends w.pool) (backends w.pool) []) fs)

-- After the choice of a backend.
abbrev pub chosen_at : Request → List Frame → Option Ref × World → World × Thread
chosen_at r fs (none, w) = (w, at (returning unavailable) fs)
chosen_at r fs (some peer, w) = (w, at (asking r peer) fs)

-- After `Allow`.
abbrev pub asked_at : Request → Ref → List Frame → World × Bool → World × Thread
asked_at r peer fs (w, false) = (w, at (entering (next_attempt r)) fs)
asked_at r peer fs (w, true) = (w, at (beginning r peer) fs)

-- After exchange `n`: the reply is copied, or the error handler runs.
abbrev pub answered_at : ℕ → Ref → Request → List Frame → World → Reply → World × Thread
answered_at n b r fs w (answered code) = (w, at (returning (wrote code)) fs)
answered_at n b r fs w failed = (w, at (if retriable r then pausing n b r else marking b r) fs)

module _ (env : Env) where
  abbrev pub frame_of : Request → Ref → World → Frame
  frame_of r peer w = record {
    peer = peer;
    attempts = get_attempts_from_context r;
    start = now env w;
    request = with_request_id env r w;
    set_cookies = peer_cookies env peer w;
  }

  -- One turn of the loop over the pool's backends.
  unfoldable pub filter_one :
      Request → List Ref → List Ref → List Ref → List Frame → World → World × Thread
  filter_one r all [] filtered fs w = (w, at (selecting r (or_all all filtered)) fs)
  filter_one r all (b ∷ rest) filtered fs w =
      let (w', passes) = on_breaker env (url_of w.heap b) (λ t cb. (cb, eligible t cb)) w in
      (w', at (filtering r all rest (if passes then filtered ++ b ∷ [] else filtered)) fs)

  -- After an inner call has returned; at the end of the request nothing moves.
  unfoldable pub return_to : Response → List Frame → World → World × Thread
  return_to resp [] w = (w, at (returning resp) [])
  return_to resp (f ∷ fs) w =
      if resp.aborted
      then (w, at (ending resp) (f ∷ fs))
      else if get_attempts_from_context f.request == f.attempts
      then (recorded env f.peer f.start (status_code resp) w, at (rating resp) (f ∷ fs))
      else (record w { readings = suc w.readings }, at (ending resp) (f ∷ fs))

  unfoldable pub rate : Response → List Frame → World → World × Thread
  rate resp [] w = (w, at (returning resp) [])
  rate resp (f ∷ fs) w = (
    if leb 500 (status_code resp)
        then (on_breaker env (url_of w.heap f.peer) (tell env record_failure) w).0
        else (on_breaker env (url_of w.heap f.peer) (tell env (λ _ b. record_success b)) w).0,
    at (ending resp) (f ∷ fs),
  )

  unfoldable pub finish : Response → List Frame → World → World × Thread
  finish resp [] w = (w, at (returning resp) [])
  finish resp (f ∷ fs) w = (
    end_frame env f.peer w,
    at (returning (record resp { cookies = f.set_cookies ++ resp.cookies })) fs,
  )

  unfoldable pub move : Stage → List Frame → World → World × Thread
  unfolding filter_one return_to rate finish
  move (entering r) fs w =
      entered_at r fs w (leb max_backend_switches (get_attempts_from_context r)) w.cb_registry
  move (filtering r all rest filtered) fs w = filter_one r all rest filtered fs w
  move (selecting r bs) fs w = chosen_at r fs (choose env r w bs)
  move (asking r peer) fs w = asked_at r peer fs (on_breaker env (url_of w.heap peer) allow w)
  move (beginning r peer) fs w =
      (begin_frame env peer w, at (sending peer (with_request_id env r w)) (frame_of r peer w ∷ fs))
  move (sending b r) fs w = (send b w, at (awaiting (length w.sent) b r) fs)
  move (awaiting n b r) fs w = answered_at n b r fs w (env.round_trip n b r)
  move (pausing n b r) fs w =
      (w, at (if env.client_gone n then returning nothing else sending b (next_retry r)) fs)
  move (marking b r) fs w = (mark_down env b w, at (blaming b r) fs)
  move (blaming b r) fs w = (
    (on_breaker env (url_of w.heap b) (tell env record_failure) w).0,
    at
        (if ltb (get_attempts_from_context r) max_backend_switches
          then entering (next_attempt r)
          else returning unavailable)
        fs,
  )
  move (returning resp) fs w = return_to resp fs w
  move (rating resp) fs w = rate resp fs w
  move (ending resp) fs w = finish resp fs w

  -- The threads in some order. A thread that is not there does not move.
  unfoldable pub take_turn : ℕ → World → List Thread → World × List Thread
  take_turn i w [] = (w, [])
  take_turn zero w (t ∷ ts) = let (w', t') = move t.stage t.frames w in (w', t' ∷ ts)
  take_turn (suc i) w (t ∷ ts) = let (w', ts') = take_turn i w ts in (w', t ∷ ts')
