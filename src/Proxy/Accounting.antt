-- ===== src/Proxy/Accounting.antt =====
-- internal/proxy/proxy.go: what the circuit breaker of a backend is told when a request fails there
-- and is switched to another backend. `ServeHTTP` means to leave the record to the inner frame, by a
-- test that the request's attempts have not changed; but the error handler puts the new attempts
-- into a request of its own (`r.WithContext`), so the test of the outer frame always succeeds. Also
-- what it is told when the client goes away while a retry waits.
use go_lb.Base.{
  ℕ, suc, ◌+◌, ◌<◌, String, ◌≡◌, refl, sym, ap, ◌∙◌, subst, inl, inr, Bool, false, Option, none,
  some, arith, Option-cases, length, true, [], str_eq_refl,
}
use go_lb.Backend.{Ref, url_of, incr_conns}
use go_lb.CircuitBreaker.{Breaker, record_failure, record_success, closed}
use go_lb.CircuitBreaker.Registry.{view, with_breaker-view}
use go_lb.Proxy.Total.{finished, forward-returned}
use go_lb.Proxy.{
  Request, Env, World, on_breaker, mark_failed, settle, get_attempts_from_context, begin_frame, now,
  nothing, tell, recorded, proxy_serve, end_frame, forward, Handler, give_up, Response, failed,
  max_retries, max_backend_switches, retriable, with_request_id, next_attempt, status_code, send,
}

-- The breaker that the registry holds for a URL.
abbrev pub breaker_at : World → String → Option Breaker
breaker_at w url = elim w.cb_registry [ none ↦ none | some reg ↦ some (view reg url) ]

module _ (env : Env) where
  on_breaker-at :
      (w : World) (url : String) (f : ℕ → Breaker → Breaker × Bool) (cb : Breaker)
      → breaker_at w url ≡ some cb
      → breaker_at (on_breaker env url f w).0 url ≡ some (f (now env w) cb).0
  unfolding on_breaker
  on_breaker-at w url f cb e = elim (Option-cases w.cb_registry) [
    | inl n ↦ absurd (ground (arith, n))
    | inr (reg, s) ↦
        ground (arith, s, str_eq_refl url, (with_breaker-view reg url url (f (now env w))).0)
  ]

  begin_frame-url :
      (peer : Ref) (w : World) → url_of (begin_frame env peer w).heap peer ≡ url_of w.heap peer
  unfolding begin_frame incr_conns
  begin_frame-url peer w = ground arith

  mark_failed-at :
      (b : Ref) (w : World) (cb : Breaker)
      → breaker_at w (url_of w.heap b) ≡ some cb
      → breaker_at (mark_failed env b w) (url_of w.heap b) ≡ some (record_failure (now env w) cb)
  unfolding mark_failed
  mark_failed-at b w cb e = on_breaker-at _ (url_of w.heap b) (tell env record_failure) cb e

  settle-at :
      (r : Request) (peer : Ref) (start : ℕ) (resp : Response) (w : World) (cb : Breaker)
      → resp.aborted ≡ false
      → status_code resp < 500
      → breaker_at w (url_of w.heap peer) ≡ some cb
      → breaker_at
          (settle env (get_attempts_from_context r) peer start resp r w)
          (url_of w.heap peer)
        ≡ some (record_success cb)
  unfolding settle
  settle-at r peer start resp w cb whole lt e =
      let told =
        on_breaker-at (recorded env peer start (status_code resp) w) (url_of w.heap peer)
          (tell env (λ _ b. record_success b)) cb e in
      ground (arith, whole, told)

  begin_frame-rest :
      (peer : Ref) (w : World)
      → ((begin_frame env peer w).sent ≡ w.sent)
        × ((begin_frame env peer w).cb_registry ≡ w.cb_registry)
        × (now env (begin_frame env peer w) ≡ env.clock (suc w.readings))
  unfolding begin_frame
  begin_frame-rest peer w = (refl, refl, refl)

  proxy_serve-switch :
      (again : Handler) (f : ℕ) (b : Ref) (r : Request) (w : World)
      → env.round_trip (length w.sent) b r ≡ failed
      → retriable r ≡ false
      → get_attempts_from_context r < max_backend_switches
      → proxy_serve env again (suc f) b r w ≡ again (next_attempt r) (mark_failed env b (send b w))
  unfolding proxy_serve give_up
  proxy_serve-switch again f b r w e t lt = ground (arith, e, t)

  forgotten :
      (now : ℕ) (cb : Breaker)
      → cb.state ≡ closed
      → cb.failures + 1 < cb.failure_threshold
      → record_success (record_failure now cb) ≡ record cb { failures = 0 }
  unfolding record_success record_failure
  forgotten now cb c lt = ground arith

  end_frame-at :
      (peer : Ref) (w : World) (url : String)
      → breaker_at (end_frame env peer w) url ≡ breaker_at w url
  unfolding end_frame
  end_frame-at peer w url = refl

  marked_at :
      (b : Ref) (w : World) (cb : Breaker)
      → breaker_at w (url_of w.heap b) ≡ some cb
      → breaker_at (mark_failed env b (send b (begin_frame env b w))) (url_of w.heap b)
        ≡ some (record_failure (env.clock (suc w.readings)) cb)
  unfolding begin_frame
  marked_at b w cb held =
      let begun = send b (begin_frame env b w) in
      let url = begin_frame-url b w in
      subst
        (λ v.
          breaker_at (mark_failed env b begun) v
          ≡ some (record_failure (env.clock (suc w.readings)) cb))
        url (mark_failed-at b begun cb (subst (λ v. breaker_at begun v ≡ some cb) (sym url) held))

  -- A request that fails at a backend, is not to be retried there and is then answered below 500, by a
  -- response that does not break off, by the switch to another leaves the first backend's breaker with no failure counted, if it was closed
  -- and not at the last failure before its threshold: the outer frame records a success for it. The
  -- frames of the switch are taken to leave that breaker and the backend's URL as they found them.
  pub forward-forgets :
      (again : Handler) (b : Ref) (r : Request) (w : World) (cb : Breaker) (resp : Response)
      (w' : World)
      → breaker_at w (url_of w.heap b) ≡ some cb
      → cb.state ≡ closed
      → cb.failures + 1 < cb.failure_threshold
      → get_attempts_from_context r < max_backend_switches
      → env.round_trip (length w.sent) b (with_request_id env r w) ≡ failed
      → retriable r ≡ false
      → again
          (next_attempt (with_request_id env r w))
          (mark_failed env b (send b (begin_frame env b w)))
        ≡ some (resp, w')
      → resp.aborted ≡ false
      → status_code resp < 500
      → url_of w'.heap b ≡ url_of w.heap b
      → breaker_at w' (url_of w.heap b)
        ≡ breaker_at (mark_failed env b (send b (begin_frame env b w))) (url_of w.heap b)
      → (a : Response × World) × (forward env again b r w ≡ some a)
        × (breaker_at a.1 (url_of w.heap b) ≡ some (record cb { failures = 0 }))
  forward-forgets again b r w cb resp w' held on below lt lost once switched whole good same left =
      let begun = begin_frame env b w in
      let r' = with_request_id env r w in
      let failing = record_failure (env.clock (suc w.readings)) cb in
      let lost' : env.round_trip (length begun.sent) b r' ≡ failed =
        ap (λ s. env.round_trip (length s) b r') (begin_frame-rest b w).0 ∙ lost in
      let returned =
        forward-returned env again r w b (resp, w')
          (proxy_serve-switch again max_retries b r' begun lost' once lt ∙ switched) in
      let settled = settle env (get_attempts_from_context r) b (now env w) resp r' w' in
      let noted : breaker_at w' (url_of w'.heap b) ≡ some failing =
        subst (λ v. breaker_at w' v ≡ some failing) (sym same) (left ∙ marked_at b w cb held) in
      let cleared : breaker_at settled (url_of w'.heap b) ≡ some (record_success failing) =
        settle-at r' b (now env w) resp w' failing whole good noted in
      let forgiven =
        subst (λ v. breaker_at settled v ≡ some (record_success failing)) same cleared in
      (
        finished env r w b (resp, w'),
        returned,
        end_frame-at b settled (url_of w.heap b)
            ∙ (forgiven ∙ ap some (forgotten (env.clock (suc w.readings)) cb on below)),
      )

  proxy_serve-cancelled :
      (again : Handler) (f : ℕ) (b : Ref) (r : Request) (w : World)
      → env.round_trip (length w.sent) b r ≡ failed
      → retriable r ≡ true
      → env.client_gone (length w.sent) ≡ true
      → proxy_serve env again (suc f) b r w ≡ some (nothing, send b w)
  unfolding proxy_serve
  proxy_serve-cancelled again f b r w e t g = ground (arith, e, t, g)

  -- A request that may be retried fails at a backend, and its client goes away while the retry waits:
  -- it gets no status, and yet the backend's breaker, if breakers are on, is told of a success. The
  -- frame reads the status 200 that it began with.
  pub forward-forgives :
      (again : Handler) (b : Ref) (r : Request) (w : World) (cb : Breaker)
      → breaker_at w (url_of w.heap b) ≡ some cb
      → env.round_trip (length w.sent) b (with_request_id env r w) ≡ failed
      → retriable r ≡ true
      → env.client_gone (length w.sent) ≡ true
      → (a : Response × World) × (forward env again b r w ≡ some a)
        × (a.0.statuses ≡ [])
        × (breaker_at a.1 (url_of w.heap b) ≡ some (record_success cb))
  unfolding begin_frame
  forward-forgives again b r w cb held lost retry gone =
      let begun = begin_frame env b w in
      let r' = with_request_id env r w in
      let sent = (begin_frame-rest b w).0 in
      let returned =
        forward-returned env again r w b (nothing, send b begun)
          (proxy_serve-cancelled again max_retries b r' begun
            (ap (λ s. env.round_trip (length s) b r') sent ∙ lost) retry
            (ap (λ s. env.client_gone (length s)) sent ∙ gone)) in
      let settled =
        settle env (get_attempts_from_context r) b (now env w) nothing r' (send b begun) in
      let cleared : breaker_at settled (url_of begun.heap b) ≡ some (record_success cb) =
        settle-at r' b (now env w) nothing (send b begun) cb refl (omega arith)
          (subst (λ v. breaker_at begun v ≡ some cb) (sym (begin_frame-url b w)) held) in
      (
        finished env r w b (nothing, send b begun),
        returned,
        refl,
        end_frame-at b settled (url_of w.heap b)
            ∙ subst (λ v. breaker_at settled v ≡ some (record_success cb)) (begin_frame-url b w)
                cleared,
      )
