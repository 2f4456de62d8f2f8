-- ===== src/Proxy/Overlap/Ends.antt =====
-- internal/proxy/proxy.go: every request is answered, whatever runs between its moves.
use go_lb.Base.{
  ℕ, zero, suc, ◌+◌, ◌≤◌, ◌≡◌, refl, sym, subst, inl, inr, Bool, true, false, Option, none, some,
  List, [], ◌∷◌, arith, ltb, ◌==◌, if◌then◌else◌, length,
}
use go_lb.Backend.{Ref, url_of}
use go_lb.Pool.{backends}
use go_lb.CircuitBreaker.Registry.{Registry}
use go_lb.CircuitBreaker.{allow}
use go_lb.Proxy.{
  Env, World, Reply, answered, failed, Request, Response, max_backend_switches, max_retries,
  get_attempts_from_context, get_retry_from_context, unavailable, nothing, wrote, next_attempt,
  next_retry, retriable, on_breaker, choose, with_request_id,
}
use go_lb.Proxy.Total.{answer-cases, choice-cases, retriable-true}
use go_lb.Proxy.Overlap.{
  Frame, Stage, entering, filtering, selecting, asking, beginning, sending, awaiting, pausing,
  marking, blaming, returning, rating, ending, Thread, at, frame_of, entered_at, answered_at, move,
  IsDone, or_all,
}

module _ (env : Env) where
  -- A thread comes to its end, whatever state each of its moves finds.
  pub data Finishes : Thread → Type 0 where
    stops : {t : Thread} → IsDone t → Finishes t
    goes_on : {t : Thread} → ((w : World) → Finishes (move env t.stage t.frames w).1) → Finishes t

  moving :
      (s : Stage) (fs : List Frame)
      → ((w : World) → Finishes (move env s fs w).1)
      → Finishes (at s fs)
  moving s fs all = goes_on all

  either :
      (b : Bool) (s s' : Stage) (fs : List Frame)
      → (b ≡ true → Finishes (at s fs))
      → (b ≡ false → Finishes (at s' fs))
      → Finishes (at (if b then s else s') fs)
  either true s s' fs p q = p refl
  either false s s' fs p q = q refl

  ending-Finishes :
      (resp : Response) (f : Frame) (fs : List Frame)
      → ((resp : Response) → Finishes (at (returning resp) fs))
      → Finishes (at (ending resp) (f ∷ fs))
  unfolding move
  ending-Finishes resp f fs below = moving (ending resp) (f ∷ fs) (λ w. below _)

  returned-Finishes :
      (p q : Bool) {s s' : Stage} {fs : List Frame} (w w' w'' : World)
      → Finishes (at s fs)
      → Finishes (at s' fs)
      → Finishes (
          let a : World × Thread =
            if p then (w, at s fs) else if q then (w', at s' fs) else (w'', at s fs) in
          a.1)
  returned-Finishes true q w w' w'' f g = f
  returned-Finishes false true w w' w'' f g = g
  returned-Finishes false false w w' w'' f g = f

  returning-Finishes : (fs : List Frame) (resp : Response) → Finishes (at (returning resp) fs)
  unfolding move
  returning-Finishes [] resp = stops (resp, refl)
  returning-Finishes (f ∷ fs) resp =
      let last = ending-Finishes resp f fs (returning-Finishes fs) in
      moving (returning resp) (f ∷ fs) (λ w.
        returned-Finishes resp.aborted (get_attempts_from_context f.request == f.attempts) w _ _
          last (moving (rating resp) (f ∷ fs) (λ w'. last)))

  -- What a stage needs of the calls of `ServeHTTP` that follow it.
  abbrev Again : ℕ → Type 0
  Again attempts =
      (r : Request) (fs : List Frame)
      → get_attempts_from_context r ≡ suc attempts
      → Finishes (at (entering r) fs)

  marking-Finishes :
      (b : Ref) (r : Request) (fs : List Frame)
      → Again (get_attempts_from_context r)
      → Finishes (at (marking b r) fs)
  unfolding move
  marking-Finishes b r fs again = moving (marking b r) fs (λ w. moving (blaming b r) fs (λ w'.
      either (ltb (get_attempts_from_context r) max_backend_switches) (entering (next_attempt r))
        (returning unavailable) fs (λ few. again (next_attempt r) fs (omega arith))
        (λ many. returning-Finishes fs unavailable)))

  answered-Finishes :
      (n : ℕ) (b : Ref) (r : Request) (fs : List Frame) (w : World) (reply : Reply)
      → Again (get_attempts_from_context r)
      → (retriable r ≡ true → Finishes (at (sending b (next_retry r)) fs))
      → Finishes (answered_at n b r fs w reply).1
  unfolding move
  answered-Finishes n b r fs w (answered code) again retried = returning-Finishes fs (wrote code)
  answered-Finishes n b r fs w failed again retried =
      either (retriable r) (pausing n b r) (marking b r) fs
        (λ retry. moving (pausing n b r) fs (λ w'.
          either (env.client_gone n) (returning nothing) (sending b (next_retry r)) fs
            (λ gone. returning-Finishes fs nothing) (λ waits. retried retry)))
        (λ over. marking-Finishes b r fs again)

  exchange-Finishes :
      (b : Ref) (r : Request) (fs : List Frame)
      → Again (get_attempts_from_context r)
      → (retriable r ≡ true → Finishes (at (sending b (next_retry r)) fs))
      → Finishes (at (sending b r) fs)
  unfolding move
  exchange-Finishes b r fs again retried = moving (sending b r) fs (λ w.
      let n = length w.sent in
      moving (awaiting n b r) fs
        (λ w'. answered-Finishes n b r fs w' (env.round_trip n b r) again retried))

  -- By the retries that are left.
  sending-Finishes :
      (k : ℕ) (b : Ref) (r : Request) (fs : List Frame)
      → Again (get_attempts_from_context r)
      → max_retries ≤ k + get_retry_from_context r
      → Finishes (at (sending b r) fs)
  sending-Finishes zero b r fs again enough =
      exchange-Finishes b r fs again (λ t. absurd (omega (arith, retriable-true r t)))
  sending-Finishes (suc k) b r fs again enough =
      exchange-Finishes b r fs again
        (λ t. sending-Finishes k b (next_retry r) fs again (omega arith))

  asking-Finishes :
      (r : Request) (peer : Ref) (fs : List Frame)
      → Again (get_attempts_from_context r)
      → Finishes (at (asking r peer) fs)
  unfolding move
  asking-Finishes r peer fs again = moving (asking r peer) fs (λ w.
      elim (answer-cases (on_breaker env (url_of w.heap peer) allow w)) [
        | inl (w', e) ↦
            subst Finishes (sym (ground (arith, e))) (again (next_attempt r) fs (omega arith))
        | inr (w', e) ↦ subst Finishes (sym (ground (arith, e))) (
            moving (beginning r peer) fs (λ w''.
              sending-Finishes max_retries peer (with_request_id env r w'')
                (frame_of env r peer w'' ∷ fs) again (omega arith)))
      ])

  selecting-Finishes :
      (r : Request) (bs : List Ref) (fs : List Frame)
      → Again (get_attempts_from_context r)
      → Finishes (at (selecting r bs) fs)
  unfolding move
  selecting-Finishes r bs fs again = moving (selecting r bs) fs (λ w.
      elim (choice-cases (choose env r w bs)) [
        | inl (w', e) ↦ subst Finishes (sym (ground (arith, e))) (returning-Finishes fs unavailable)
        | inr (peer, w', e) ↦
            subst Finishes (sym (ground (arith, e))) (asking-Finishes r peer fs again)
      ])

  filtering-Finishes :
      (r : Request) (all rest filtered : List Ref) (fs : List Frame)
      → Again (get_attempts_from_context r)
      → Finishes (at (filtering r all rest filtered) fs)
  unfolding move
  filtering-Finishes r all [] filtered fs again =
      moving (filtering r all [] filtered) fs
        (λ w. selecting-Finishes r (or_all all filtered) fs again)
  filtering-Finishes r all (b ∷ rest) filtered fs again =
      moving (filtering r all (b ∷ rest) filtered) fs
        (λ w. filtering-Finishes r all rest _ fs again)

  entered-Finishes :
      (r : Request) (fs : List Frame) (w : World) (over : Bool) (reg : Option Registry)
      → Again (get_attempts_from_context r)
      → Finishes (entered_at r fs w over reg).1
  entered-Finishes r fs w true reg again = returning-Finishes fs unavailable
  entered-Finishes r fs w false none again = selecting-Finishes r (backends w.pool) fs again
  entered-Finishes r fs w false (some _) again =
      filtering-Finishes r (backends w.pool) (backends w.pool) [] fs again

  -- By the attempts that are left.
  entering-Finishes :
      (k : ℕ) (r : Request) (fs : List Frame)
      → max_backend_switches ≤ k + get_attempts_from_context r
      → Finishes (at (entering r) fs)
  unfolding move
  entering-Finishes zero r fs enough =
      moving (entering r) fs
        (λ w. subst Finishes (sym (ground arith)) (returning-Finishes fs unavailable))
  entering-Finishes (suc k) r fs enough =
      let again : Again (get_attempts_from_context r) =
        λ r' fs' e. entering-Finishes k r' fs' (omega arith) in
      moving (entering r) fs (λ w. entered-Finishes r fs w _ w.cb_registry again)

  pub request-Finishes : (r : Request) (fs : List Frame) → Finishes (at (entering r) fs)
  request-Finishes r fs = entering-Finishes max_backend_switches r fs (omega arith)
