-- ===== src/Proxy/Overlap/Alone.antt =====
-- internal/proxy/proxy.go: a request whose moves no other thread comes between does what
-- `serve_http` says.
use mathlib.Core.List.{append_assoc, append-nil}
use go_lb.Base.{
  ℕ, zero, suc, ◌+◌, ◌<◌, ◌≡◌, refl, sym, ap, ◌∙◌, subst, inl, inr, Bool, true, false, some, List,
  [], ◌∷◌, ◌++◌, arith, ◌==◌, if◌then◌else◌, Bool-cases, Option-cases, length,
}
use go_lb.Backend.{Ref, url_of}
use go_lb.Pool.{backends}
use go_lb.CircuitBreaker.{eligible, allow}
use go_lb.Proxy.{
  Env, World, Request, Response, max_backend_switches, get_attempts_from_context, next_attempt,
  next_retry, on_breaker, select, candidates, filter_eligible, end_frame, mark_down, mark_failed,
  send, recorded, settle, status_code, serve_http,
}
use go_lb.Proxy.Frames.{
  Serves, over, nobody, refused, served, Proxies, answer, cancelled, retries, switches,
}
use go_lb.Proxy.Total.{serve_http-Ends}
use go_lb.Proxy.Connections.{mark-Calmed}
use go_lb.Proxy.Overlap.{
  chosen_at, asked_at, or_all, Frame, Stage, entering, filtering, selecting, asking, beginning,
  sending, awaiting, pausing, marking, blaming, returning, rating, ending, Thread, at, arrived,
  frame_of, move,
}

module _ (env : Env) where
  pub moves : ℕ → World × Thread → World × Thread
  moves zero s = s
  moves (suc n) (w, t) = moves n (move env t.stage t.frames w)

  moves-add : (m n : ℕ) (s : World × Thread) → moves (m + n) s ≡ moves n (moves m s)
  unfolding moves
  moves-add zero n s = ap (λ k. moves k s) {x = 0 + n} {y = n} (omega arith)
  moves-add (suc m) n (w, t) =
      ap (λ k. moves k (w, t)) {x = suc m + n} {y = suc (m + n)} (omega arith)
      ∙ moves-add m n (move env t.stage t.frames w)

  -- Some number of moves leads from one place to the other.
  abbrev Leads : World × Thread → World × Thread → Type 0
  Leads s s' = (n : ℕ) × (moves n s ≡ s')

  onward : (a : World × Thread) {b c : World × Thread} → Leads a b → Leads b c → Leads a c
  onward a (m, p) (n, q) = (m + n, moves-add m n a ∙ (ap (moves n) p ∙ q))

  one :
      (w : World) (s : Stage) (fs : List Frame) {a : World × Thread}
      → move env s fs w ≡ a
      → Leads (w, at s fs) a
  unfolding moves
  one w s fs e = (1, e)

  then_one :
      (w : World) (s : Stage) (fs : List Frame) {b c : World × Thread}
      → move env s fs w ≡ b
      → Leads b c
      → Leads (w, at s fs) c
  then_one w s fs e l = onward (w, at s fs) (one w s fs e) l

  if-append :
      (p : Bool) (b : Ref) (xs ys : List Ref)
      → (if p then xs ++ b ∷ [] else xs) ++ ys ≡ xs ++ (if p then b ∷ ys else ys)
  if-append true b xs ys = append_assoc xs (b ∷ []) ys
  if-append false b xs ys = refl

  filter-Leads :
      (r : Request) (all rest filtered : List Ref) (fs : List Frame) (w : World)
      → Leads
          (w, at (filtering r all rest filtered) fs)
          (
            (filter_eligible env rest w).1,
            at (selecting r (or_all all (filtered ++ (filter_eligible env rest w).0))) fs,
          )
  unfolding filter_eligible move
  filter-Leads r all [] filtered fs w =
      one w _ fs (ap (λ xs. (w, at (selecting r (or_all all xs)) fs)) (sym (append-nil filtered)))
  filter-Leads r all (b ∷ rest) filtered fs w =
      let (w', passes) = on_breaker env (url_of w.heap b) (λ t cb. (cb, eligible t cb)) w in
      subst
        (λ xs.
          Leads (w, at (filtering r all (b ∷ rest) filtered) fs)
            ((filter_eligible env rest w').1, at (selecting r (or_all all xs)) fs))
        (if-append passes b filtered (filter_eligible env rest w').0)
        (then_one w _ fs refl
          (filter-Leads r all rest (if passes then filtered ++ b ∷ [] else filtered) fs w'))

  candidates-Leads :
      (r : Request) (fs : List Frame) (w : World)
      → get_attempts_from_context r < max_backend_switches
      → Leads
          (w, at (entering r) fs)
          ((candidates env w).1, at (selecting r (candidates env w).0) fs)
  unfolding candidates move
  candidates-Leads r fs w lt = elim (Option-cases w.cb_registry) [
    | inl e ↦ one w _ fs (ground (arith, e))
    | inr (reg, e) ↦
        subst
          (λ (a : List Ref × World). Leads (w, at (entering r) fs) (a.1, at (selecting r a.0) fs))
          (ground (arith, e))
          (then_one w _ fs (ground (arith, e))
            (filter-Leads r (backends w.pool) (backends w.pool) [] fs w))
  ]

  -- Up to the choice of a backend.
  selected :
      (r : Request) (fs : List Frame) (w : World)
      → get_attempts_from_context r < max_backend_switches
      → Leads (w, at (entering r) fs) (chosen_at r fs (select env r w))
  unfolding move select
  selected r fs w lt =
      onward (w, at (entering r) fs) (candidates-Leads r fs w lt)
        (one (candidates env w).1 (selecting r (candidates env w).0) fs refl)

  -- Up to the answer of its breaker.
  asked :
      (r : Request) (fs : List Frame) (w w' w'' : World) (peer : Ref) (allowed : Bool)
      → get_attempts_from_context r < max_backend_switches
      → select env r w ≡ (some peer, w')
      → on_breaker env (url_of w'.heap peer) allow w' ≡ (w'', allowed)
      → Leads (w, at (entering r) fs) (asked_at r peer fs (w'', allowed))
  unfolding move
  asked r fs w w' w'' peer allowed lt e p =
      onward (w, at (entering r) fs)
        (subst (λ a. Leads (w, at (entering r) fs) (chosen_at r fs a)) e (selected r fs w lt))
        (one w' (asking r peer) fs (ap (asked_at r peer fs) p))

  mark_down-url : (b : Ref) (w : World) → url_of (mark_down env b w).heap b ≡ url_of w.heap b
  unfolding mark_down
  mark_down-url b w = ap (λ u. u.text) (mark-Calmed w.heap w.metrics w.pool (url_of w.heap b) b).url

  -- The error handler without a retry.
  given_up :
      (b : Ref) (r : Request) (fs : List Frame) (w : World)
      → get_attempts_from_context r < max_backend_switches
      → Leads (w, at (marking b r) fs) (mark_failed env b w, at (entering (next_attempt r)) fs)
  unfolding move mark_failed
  given_up b r fs w lt =
      then_one w (marking b r) fs refl
        (one (mark_down env b w) (blaming b r) fs (ground (arith, mark_down-url b w)))

  -- What a frame does after the return of its reverse proxy.
  abbrev closed : Response → Frame → List Frame → World → World × Thread
  closed resp f fs w = (
    end_frame env f.peer w,
    at (returning (record resp { cookies = f.set_cookies ++ resp.cookies })) fs,
  )

  abbrev settled : Response → Frame → World → World
  settled resp f w = settle env f.attempts f.peer f.start resp f.request w

  settled-own :
      (resp : Response) (f : Frame) (fs : List Frame) (w : World)
      → resp.aborted ≡ false
      → (get_attempts_from_context f.request == f.attempts) ≡ true
      → Leads (w, at (returning resp) (f ∷ fs)) (closed resp f fs (settled resp f w))
  unfolding move settle
  settled-own resp f fs w whole own =
      let w₁ = recorded env f.peer f.start (status_code resp) w in
      let w₂ = (move env (rating resp) (f ∷ fs) w₁).0 in
      let same : settled resp f w ≡ w₂ = ground (arith, whole, own) in
      then_one w (returning resp) (f ∷ fs) {b = (w₁, at (rating resp) (f ∷ fs))}
        (ground (arith, whole, own))
        (then_one w₁ (rating resp) (f ∷ fs) refl
          (one w₂ (ending resp) (f ∷ fs) (ap (closed resp f fs) (sym same))))

  settled-other :
      (resp : Response) (f : Frame) (fs : List Frame) (w : World)
      → resp.aborted ≡ false
      → (get_attempts_from_context f.request == f.attempts) ≡ false
      → Leads (w, at (returning resp) (f ∷ fs)) (closed resp f fs (settled resp f w))
  unfolding move settle
  settled-other resp f fs w whole other =
      let w₁ = record w { readings = suc w.readings } in
      let same : settled resp f w ≡ w₁ = ground (arith, whole, other) in
      then_one w (returning resp) (f ∷ fs) {b = (w₁, at (ending resp) (f ∷ fs))}
        (ground (arith, whole, other))
        (one w₁ (ending resp) (f ∷ fs) (ap (closed resp f fs) (sym same)))

  settled-aborted :
      (resp : Response) (f : Frame) (fs : List Frame) (w : World)
      → resp.aborted ≡ true
      → Leads (w, at (returning resp) (f ∷ fs)) (closed resp f fs (settled resp f w))
  unfolding move settle
  settled-aborted resp f fs w gone =
      let same : settled resp f w ≡ w = ground (arith, gone) in
      then_one w (returning resp) (f ∷ fs) {b = (w, at (ending resp) (f ∷ fs))}
        (ground (arith, gone)) (one w (ending resp) (f ∷ fs) (ap (closed resp f fs) (sym same)))

  returned :
      (resp : Response) (f : Frame) (fs : List Frame) (w : World)
      → Leads (w, at (returning resp) (f ∷ fs)) (closed resp f fs (settled resp f w))
  returned resp f fs w = elim (Bool-cases resp.aborted) [
    | inl gone ↦ settled-aborted resp f fs w gone
    | inr whole ↦ elim (Bool-cases (get_attempts_from_context f.request == f.attempts)) [
      | inl own ↦ settled-own resp f fs w whole own
      | inr other ↦ settled-other resp f fs w whole other
    ]
  ]

  mutual
    unfolding move

    Serves-Leads :
        {r : Request} {w w' : World} {resp : Response}
        → Serves env r w resp w'
        → (fs : List Frame) → Leads (w, at (entering r) fs) (w', at (returning resp) fs)
    Serves-Leads (over {r} {w} done) fs = one w (entering r) fs (ground arith)
    Serves-Leads (nobody {r} {w} lt e) fs =
        subst (λ a. Leads (w, at (entering r) fs) (chosen_at r fs a)) e (selected r fs w lt)
    Serves-Leads (refused {r} {w} {w'} {w''} {peer} lt e p s) fs =
        onward (w, at (entering r) fs) (asked r fs w w' w'' peer false lt e p) (Serves-Leads s fs)
    Serves-Leads (served {r} {w} {w'} {w''} {w₃} {w₄} {peer} {resp} lt e p s g h) fs =
        let f = frame_of env r peer w'' in
        onward (w, at (entering r) fs) (asked r fs w w' w'' peer true lt e p)
          (then_one w'' (beginning r peer) fs refl (
            onward _ (Proxies-Leads s (f ∷ fs)) (
              subst
                (λ (a : World × Response).
                  Leads (w₃, at (returning resp) (f ∷ fs)) (a.0, at (returning a.1) fs))
                (λ i. (sym h i, sym g i)) (returned resp f fs w₃))))

    Proxies-Leads :
        {b : Ref} {r : Request} {w w' : World} {resp : Response}
        → Proxies env b r w resp w'
        → (fs : List Frame) → Leads (w, at (sending b r) fs) (w', at (returning resp) fs)
    Proxies-Leads (answer {b} {r} {w} e) fs =
        then_one w (sending b r) fs refl
          (one (send b w) (awaiting (length w.sent) b r) fs (ground (arith, e)))
    Proxies-Leads (cancelled {b} {r} {w} e t g) fs = then_one w (sending b r) fs refl (
        then_one (send b w) (awaiting (length w.sent) b r) fs
          {b = (send b w, at (pausing (length w.sent) b r) fs)} (ground (arith, e, t))
          (one (send b w) (pausing (length w.sent) b r) fs (ground (arith, g))))
    Proxies-Leads (retries {b} {r} {w} e t g s) fs = then_one w (sending b r) fs refl (
        then_one (send b w) (awaiting (length w.sent) b r) fs
          {b = (send b w, at (pausing (length w.sent) b r) fs)} (ground (arith, e, t))
          (then_one (send b w) (pausing (length w.sent) b r) fs
            {b = (send b w, at (sending b (next_retry r)) fs)} (ground (arith, g))
            (Proxies-Leads s fs)))
    Proxies-Leads (switches {b} {r} {w} e t lt s) fs = then_one w (sending b r) fs refl (
        then_one (send b w) (awaiting (length w.sent) b r) fs {b = (send b w, at (marking b r) fs)}
          (ground (arith, e, t)) (onward _ (given_up b r fs (send b w) lt) (Serves-Leads s fs)))

  -- A request whose moves no other thread comes between is answered as `serve_http`, with fuel for
  -- every attempt, answers it, and leaves the state that it leaves.
  pub serve_http-moves :
      (f : ℕ) (r : Request) (w : World)
      → max_backend_switches < f
      → (a : Response × World) × (serve_http env f r w ≡ some a)
        × (n : ℕ) × (moves n (w, arrived r) ≡ (a.1, at (returning a.0) []))
  serve_http-moves f r w enough =
      let (a, ended, s) = serve_http-Ends env f r w (omega arith) (omega arith) in
      let (n, led) = Serves-Leads s [] in (a, ended, n, led)
