-- ===== src/Proxy/Bounds.antt =====
-- internal/proxy/proxy.go: how many exchanges with backends one request may cause.
use go_lb.Base.{
  ℕ, suc, ◌+◌, ◌-◌, ◌*◌, ◌≤◌, ◌<◌, String, ◌≡◌, ap, ◌∙◌, Bool, true, ◌&&◌, some, [], ◌∷◌, arith,
  ltb, if◌then◌else◌, length, length-append,
}
use go_lb.Backend.{Ref, url_of}
use go_lb.CircuitBreaker.{allow}
use go_lb.Proxy.{
  max_backend_switches, max_retries, idempotent, Request, Env, World, Response, settle, serve_http,
  get_attempts_from_context, get_retry_from_context, with_request_id, retriable, send, now,
}
use go_lb.Proxy.Frames.{
  Serves, over, nobody, refused, served, Proxies, answer, cancelled, retries, switches,
}
use go_lb.Proxy.Total.{serve_http-Ends}
use go_lb.Proxy.Keeps.{
  mark_failed-sent, chosen-Keeps, asked-Keeps, begin_frame-sent, end_frame-sent, settle-Keeps,
}

-- The exchanges that one backend may get for a request of this method, and from a given retry on.
abbrev pub trips : String → ℕ
trips method = if idempotent method then 1 + max_retries else 1

abbrev pub trips_left : Request → ℕ
trips_left r = if retriable r then 1 + max_retries - get_retry_from_context r else 1

abbrev pub switches_left : Request → ℕ
switches_left r = max_backend_switches - get_attempts_from_context r

pub left-le : (n : ℕ) (i : Bool) → (if ltb n 3 && i then 4 - n else 1) ≤ (if i then 4 else 1)
left-le n i = ground arith

pub left-next :
    (n : ℕ) (i : Bool)
    → (ltb n 3 && i) ≡ true
    → 1 + (if ltb (n + 1) 3 && i then 4 - (n + 1) else 1) ≤ (if ltb n 3 && i then 4 - n else 1)
left-next n i t = ground arith

pub trips_left-pos : (r : Request) → 1 ≤ trips_left r
trips_left-pos r = left-pos (get_retry_from_context r) (idempotent r.method)
  where
    left-pos : (n : ℕ) (i : Bool) → 1 ≤ (if ltb n 3 && i then 4 - n else 1)
    left-pos n i = ground arith

module _ (env : Env) where
  length-send : (b : Ref) (w : World) → length (send b w).sent ≡ length w.sent + 1
  length-send b w = length-append w.sent (b ∷ []) ∙ omega arith

  pub spend : (a t : ℕ) → a < 3 → (3 - a) * t ≡ t + (3 - a - 1) * t
  spend a t lt =
      let left : 3 - a ≡ suc (3 - a - 1) = omega arith in ap (λ k. k * t) left ∙ omega arith

  pub spend_next : (a t : ℕ) → (3 - (a + 1)) * t ≡ (3 - a - 1) * t
  spend_next a t = ap (λ k. k * t) (omega arith)

  mutual
    Serves-trips :
        {r : Request} {w w' : World} {resp : Response}
        → Serves env r w resp w'
        → length w'.sent ≤ length w.sent + switches_left r * trips r.method
    Serves-trips (over done) = omega arith
    Serves-trips (nobody {r} {w} lt e) = omega (arith, ap length (chosen-Keeps env r e).sent)
    Serves-trips (refused {r} {w} {w'} {peer} lt e p s) = omega (
      arith,
      ap length (chosen-Keeps env r e).sent,
      ap length (asked-Keeps env (url_of w'.heap peer) allow p).sent,
      spend (get_attempts_from_context r) (trips r.method) lt,
      spend_next (get_attempts_from_context r) (trips r.method),
      Serves-trips s,
    )
    Serves-trips (served {r} {w} {w'} {w''} {w₃} {peer} {resp} lt e p s f g) = omega (
      arith,
      ap length (chosen-Keeps env r e).sent,
      ap length (asked-Keeps env (url_of w'.heap peer) allow p).sent,
      ap length (begin_frame-sent env peer w''),
      ap (λ w. length w.sent) g,
      ap length (
          end_frame-sent env peer (
            settle env (get_attempts_from_context r) peer (now env w'') resp
              (with_request_id env r w'') w₃)),
      ap length
          (settle-Keeps env (get_attempts_from_context r) peer (now env w'') resp
            (with_request_id env r w'') w₃).sent,
      spend (get_attempts_from_context r) (trips r.method) lt,
      left-le (get_retry_from_context r) (idempotent r.method),
      Proxies-trips s,
    )

    Proxies-trips :
        {b : Ref} {r : Request} {w w' : World} {resp : Response}
        → Proxies env b r w resp w'
        → length w'.sent ≤ length w.sent + trips_left r + (switches_left r - 1) * trips r.method
    Proxies-trips (answer {b} {r} {w} e) = omega (arith, length-send b w, trips_left-pos r)
    Proxies-trips (cancelled {b} {r} {w} e t g) = omega (arith, length-send b w, trips_left-pos r)
    Proxies-trips (retries {b} {r} {w} e t g s) = omega (
      arith,
      length-send b w,
      left-next (get_retry_from_context r) (idempotent r.method) t,
      Proxies-trips s,
    )
    Proxies-trips (switches {b} {r} {w} e t lt s) = omega (
      arith,
      length-send b w,
      ap length (mark_failed-sent env b (send b w)),
      spend_next (get_attempts_from_context r) (trips r.method),
      trips_left-pos r,
      Serves-trips s,
    )

  -- With fuel for every attempt `ServeHTTP` returns, and it makes at most one exchange for each attempt
  -- that is left, or four if the method is idempotent: 12 for a request that comes from a client.
  pub serve_http-trips :
      (f : ℕ) (r : Request) (w : World)
      → max_backend_switches < f
      → (a : Response × World) × (serve_http env f r w ≡ some a)
        × (length a.1.sent ≤ length w.sent + switches_left r * trips r.method)
  serve_http-trips f r w enough =
      let (a, returned, s) = serve_http-Ends env f r w (omega arith) (omega arith) in
      (a, returned, Serves-trips s)
