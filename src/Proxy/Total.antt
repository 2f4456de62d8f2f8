-- ===== src/Proxy/Total.antt =====
-- internal/proxy/proxy.go: every request is answered, on the fuel that the recursion of `ServeHTTP`
-- needs: a frame for each attempt that is left, and one.
use go_lb.Base.{
  ℕ, zero, suc, ◌+◌, ◌≤◌, ◌<◌, ◌≡◌, refl, ◌∙◌, ◌⊎◌, inl, inr, Bool, true, false, ◌&&◌, Option, none,
  some, ◌++◌, arith, dec_lt, ltb, lt→ltb, Bool-cases, length,
}
use go_lb.Backend.{Ref, url_of}
use go_lb.CircuitBreaker.{allow}
use go_lb.Proxy.{
  Answer, max_backend_switches, max_retries, idempotent, Request, Reply, answered, failed, Env,
  World, Response, nothing, wrote, unavailable, Handler, next_attempt, on_breaker, select, give_up,
  mark_failed, proxy_serve, settle, peer_cookies, forward, serve_http, get_attempts_from_context,
  get_retry_from_context, now, begin_frame, end_frame, with_request_id, next_retry, retriable, send,
}
use go_lb.Proxy.Frames.{
  Serves, over, nobody, refused, served, Proxies, answer, cancelled, retries, switches,
}

pub Reply-cases : (a : Reply) → ((code : Answer) × (a ≡ answered code)) ⊎ (a ≡ failed)
Reply-cases (answered code) = inl (code, refl)
Reply-cases failed = inr refl

pub choice-cases :
    (a : Option Ref × World)
    → ((w : World) × (a ≡ (none, w))) ⊎ ((peer : Ref) × (w : World) × (a ≡ (some peer, w)))
choice-cases (none, w) = inl (w, refl)
choice-cases (some peer, w) = inr (peer, w, refl)

pub answer-cases :
    (a : World × Bool) → ((w : World) × (a ≡ (w, false))) ⊎ ((w : World) × (a ≡ (w, true)))
answer-cases (w, false) = inl (w, refl)
answer-cases (w, true) = inr (w, refl)

pub retriable-true :
    (r : Request)
    → retriable r ≡ true
    → (get_retry_from_context r < max_retries) × (idempotent r.method ≡ true)
retriable-true r t = retriable-split (get_retry_from_context r) (idempotent r.method) t
  where
    retriable-split :
        (n : ℕ) (i : Bool) → (ltb n max_retries && i) ≡ true → (n < max_retries) × (i ≡ true)
    retriable-split n i t = ground arith

module _ (env : Env) where
  -- A handler returns, and does what `ServeHTTP` may do.
  abbrev pub Ends : Request → World → Option (Response × World) → Type 0
  Ends r w o = (a : Response × World) × (o ≡ some a) × Serves env r w a.0 a.1

  abbrev EndsAt : Ref → Request → World → Option (Response × World) → Type 0
  EndsAt b r w o = (a : Response × World) × (o ≡ some a) × Proxies env b r w a.0 a.1

  -- What a frame needs of the handler for its inner calls.
  abbrev Next : Handler → ℕ → Type 0
  Next again n =
      (r : Request) (w : World) → get_attempts_from_context r ≡ suc n → Ends r w (again r w)

  give_up-EndsAt :
      (again : Handler) (b : Ref) (r : Request) (w : World)
      → Next again (get_attempts_from_context r)
      → get_attempts_from_context r < max_backend_switches
      → env.round_trip (length w.sent) b r ≡ failed
      → retriable r ≡ false
      → EndsAt b r w (give_up env again b r (send b w))
  unfolding give_up
  give_up-EndsAt again b r w next lt e t =
      let (a, returned, s) = next (next_attempt r) (mark_failed env b (send b w)) (omega arith) in
      (a, rw (lt→ltb _ _ lt) returned, switches e t lt s)

  proxy_serve-EndsAt :
      (again : Handler) (f : ℕ) (b : Ref) (r : Request) (w : World)
      → Next again (get_attempts_from_context r)
      → get_attempts_from_context r < max_backend_switches
      → 0 < f
      → max_retries < f + get_retry_from_context r
      → EndsAt b r w (proxy_serve env again f b r w)
  unfolding proxy_serve
  proxy_serve-EndsAt again zero b r w next lt pos enough = absurd (omega arith)
  proxy_serve-EndsAt again (suc f) b r w next lt pos enough =
      elim (Reply-cases (env.round_trip (length w.sent) b r)) [
        | inl (code, e) ↦ ((wrote code, send b w), ground (arith, e), answer e)
        | inr e ↦ elim (Bool-cases (retriable r)) [
          | inr t ↦
              let (a, returned, s) = give_up-EndsAt again b r w next lt e t in
              (a, ground (arith, e, t, returned), s)
          | inl t ↦ elim (Bool-cases (env.client_gone (length w.sent))) [
            | inl g ↦ ((nothing, send b w), ground (arith, e, t, g), cancelled e t g)
            | inr g ↦
                let (a, returned, s) =
                  proxy_serve-EndsAt again f b (next_retry r) (send b w) next lt
                    (omega (arith, retriable-true r t)) (omega arith) in
                (a, ground (arith, e, t, g, returned), retries e t g s)
          ]
        ]
      ]

  abbrev pub finished : Request → World → Ref → Response × World → Response × World
  finished r w peer (resp, w') = (
    record resp { cookies = peer_cookies env peer w ++ resp.cookies },
    end_frame env peer (
        settle env (get_attempts_from_context r) peer (now env w) resp (with_request_id env r w)
          w'),
  )

  pub forward-returned :
      (again : Handler) (r : Request) (w : World) (peer : Ref) (a : Response × World)
      → proxy_serve env again
          (suc max_retries)
          peer
          (with_request_id env r w)
          (begin_frame env peer w)
        ≡ some a
      → forward env again peer r w ≡ some (finished r w peer a)
  unfolding forward
  forward-returned again r w peer a e = rw (e, forward)

  forward-Ends :
      (again : Handler) (r : Request) (w w' w'' : World) (peer : Ref)
      → Next again (get_attempts_from_context r)
      → get_attempts_from_context r < max_backend_switches
      → select env r w ≡ (some peer, w')
      → on_breaker env (url_of w'.heap peer) allow w' ≡ (w'', true)
      → Ends r w (forward env again peer r w'')
  forward-Ends again r w w' w'' peer next lt chosen allowed =
      let (a, returned, s) =
        proxy_serve-EndsAt again (suc max_retries) peer (with_request_id env r w'')
          (begin_frame env peer w'') next lt (omega arith) (omega arith) in
      (
        finished r w'' peer a,
        forward-returned again r w'' peer a returned,
        served lt chosen allowed s refl refl,
      )

  serve_http-over :
      (f : ℕ) (r : Request) (w : World)
      → max_backend_switches ≤ get_attempts_from_context r
      → serve_http env (suc f) r w ≡ some (unavailable, w)
  unfolding serve_http
  serve_http-over f r w ge = ground arith

  serve_http-step :
      (f : ℕ) (r : Request) (w : World)
      → get_attempts_from_context r < max_backend_switches
      → ((w' : World)
          → select env r w ≡ (none, w')
          → serve_http env (suc f) r w ≡ some (unavailable, w'))
        × ((w' w'' : World) (peer : Ref)
            → select env r w ≡ (some peer, w')
            → on_breaker env (url_of w'.heap peer) allow w' ≡ (w'', false)
            → serve_http env (suc f) r w ≡ serve_http env f (next_attempt r) w'')
        × ((w' w'' : World) (peer : Ref)
            → select env r w ≡ (some peer, w')
            → on_breaker env (url_of w'.heap peer) allow w' ≡ (w'', true)
            → serve_http env (suc f) r w ≡ forward env (serve_http env f) peer r w'')
  unfolding serve_http
  serve_http-step f r w lt = (
    λ w' e. ground (arith, e),
    λ w' w'' peer e p. ground (arith, e, p),
    λ w' w'' peer e p. ground (arith, e, p),
  )

  -- From fuel that is more than the attempts that are left, `ServeHTTP` returns, and what it did is
  -- one of the ways of `Serves`.
  pub serve_http-Ends :
      (f : ℕ) (r : Request) (w : World)
      → 0 < f
      → max_backend_switches < f + get_attempts_from_context r
      → Ends r w (serve_http env f r w)
  serve_http-Ends zero r w pos enough = absurd (omega arith)
  serve_http-Ends (suc f) r w pos enough =
      elim (dec_lt (get_attempts_from_context r) max_backend_switches) [
        | no done ↦ ((unavailable, w), serve_http-over f r w (omega arith), over (omega arith))
        | yes lt ↦ elim (choice-cases (select env r w)) [
          | inl (w', e) ↦ ((unavailable, w'), (serve_http-step f r w lt).0 w' e, nobody lt e)
          | inr (peer, w', e) ↦
              elim (answer-cases (on_breaker env (url_of w'.heap peer) allow w')) [
                | inl (w'', p) ↦
                    let (a, returned, s) =
                      serve_http-Ends f (next_attempt r) w'' (omega arith) (omega arith) in
                    (a, (serve_http-step f r w lt).1 w' w'' peer e p ∙ returned, refused lt e p s)
                | inr (w'', p) ↦
                    let (a, returned, s) =
                      forward-Ends (serve_http env f) r w w' w'' peer
                        (λ r' v n. serve_http-Ends f r' v (omega arith) (omega arith)) lt e p in
                    (a, (serve_http-step f r w lt).2 w' w'' peer e p ∙ returned, s)
              ]
        ]
      ]
