-- ===== src/Proxy/Connections.antt =====
-- internal/proxy/proxy.go: the connection counts and the status of the backends over one request.
use go_lb.Proxy.Total.{serve_http-Ends}
use go_lb.Proxy.Frames.{
  Serves, over, nobody, refused, served, Proxies, answer, cancelled, retries, switches,
}
use go_lb.Base.{ℕ, ◌<◌, String, ◌≡◌, refl, sym, ap, ◌∙◌, subst, true, false, some, [], ◌∷◌, arith}
use go_lb.Base.Int.{ℤ, pos, ◌+ℤ◌, ◌-ℤ◌, int_laws}
use go_lb.Backend.{Ref, Heap, Backend, url_of, incr_conns, decr_conns, set_alive}
use go_lb.Metrics.{Metrics}
use go_lb.Pool.{ServerPool, mark_backend_status}
use go_lb.CircuitBreaker.{record_failure, allow}
use go_lb.Proxy.{
  Env, World, mark_failed, begin_frame, end_frame, tell, Request, Response, max_backend_switches,
  serve_http, now, with_request_id, settle, get_attempts_from_context, send,
}
use go_lb.Proxy.Keeps.{on_breaker-Keeps, chosen-Keeps, asked-Keeps, settle-Keeps}

-- The second backend is the first, or that marked dead.
pub record Calmed (b b' : Backend) : Type 0 where
  pub active_conns : b'.active_conns ≡ b.active_conns
  pub weight : b'.weight ≡ b.weight
  pub url : b'.url ≡ b.url
  pub alive : b'.alive ≡ true → b.alive ≡ true

abbrev pub CalmedAll : Heap → Heap → Type 0
CalmedAll h h' = (c : Ref) → Calmed (h c) (h' c)

Calmed-refl : (b : Backend) → Calmed b b
Calmed-refl b = record { active_conns = refl; weight = refl; url = refl; alive = λ e. e }

Calmed-trans : {a b c : Backend} → Calmed a b → Calmed b c → Calmed a c
Calmed-trans p q = record {
  active_conns = q.active_conns ∙ p.active_conns;
  weight = q.weight ∙ p.weight;
  url = q.url ∙ p.url;
  alive = λ e. p.alive (q.alive e);
}

CalmedAll-same : {h h' : Heap} → h' ≡ h → CalmedAll h h'
CalmedAll-same {h} e = subst (CalmedAll h) (sym e) (λ c. Calmed-refl (h c))

pub mark-Calmed :
    (h : Heap) (m : Metrics) (bs : ServerPool) (url : String)
    → CalmedAll h (mark_backend_status h m bs url false).0
unfolding mark_backend_status set_alive
mark-Calmed h m [] url c = Calmed-refl (h c)
mark-Calmed h m (b ∷ bs) url c = ground (arith, mark-Calmed h m bs url c)

one_off : (a : ℤ) → a +ℤ pos 1 -ℤ pos 1 ≡ a
one_off a = omega int_laws

-- What a counted connection leaves when it is closed.
closed-Calmed :
    (h h' : Heap) (peer : Ref) → CalmedAll (incr_conns h peer) h' → CalmedAll h (decr_conns h' peer)
unfolding incr_conns decr_conns
closed-Calmed h h' peer calm c = ground (arith, calm c, calm peer, one_off (h peer).active_conns)

module _ (env : Env) where
  begin_frame-heap :
      (peer : Ref) (w : World) → (begin_frame env peer w).heap ≡ incr_conns w.heap peer
  unfolding begin_frame
  begin_frame-heap peer w = refl

  end_frame-heap : (peer : Ref) (w : World) → (end_frame env peer w).heap ≡ decr_conns w.heap peer
  unfolding end_frame
  end_frame-heap peer w = refl

  mark_failed-Calmed : (b : Ref) (w : World) → CalmedAll w.heap (mark_failed env b w).heap
  unfolding mark_failed
  mark_failed-Calmed b w =
      subst (CalmedAll w.heap)
        (sym (on_breaker-Keeps env (url_of w.heap b) (tell env record_failure) _).heap)
        (mark-Calmed w.heap w.metrics w.pool (url_of w.heap b))

  mutual
    Serves-Calmed :
        {r : Request} {w w' : World} {resp : Response}
        → Serves env r w resp w'
        → CalmedAll w.heap w'.heap
    Serves-Calmed (over {w} done) c = Calmed-refl (w.heap c)
    Serves-Calmed (nobody {r} lt e) c = CalmedAll-same (chosen-Keeps env r e).heap c
    Serves-Calmed (refused {r} {w} {w'} {peer} lt e p s) c =
        let asked = asked-Keeps env (url_of w'.heap peer) allow p in
        Calmed-trans (CalmedAll-same (asked.heap ∙ (chosen-Keeps env r e).heap) c)
          (Serves-Calmed s c)
    Serves-Calmed (served {r} {w} {w'} {w''} {w₃} {w₄} {peer} {resp} lt e p s f g) c =
        let asked = asked-Keeps env (url_of w'.heap peer) allow p in
        let start = now env w'' in
        let r' = with_request_id env r w'' in
        let settled = settle env (get_attempts_from_context r) peer start resp r' w₃ in
        let last : w₄.heap ≡ decr_conns w₃.heap peer =
          ap (λ w. w.heap) g
          ∙ (end_frame-heap peer settled
              ∙ ap (λ h. decr_conns h peer)
                  (settle-Keeps env (get_attempts_from_context r) peer start resp r' w₃).heap) in
        Calmed-trans (CalmedAll-same (asked.heap ∙ (chosen-Keeps env r e).heap) c) (
          subst (λ h. Calmed (w''.heap c) (h c)) (sym last)
            (closed-Calmed w''.heap w₃.heap peer
              (subst (λ h. CalmedAll h w₃.heap) (begin_frame-heap peer w'') (Proxies-Calmed s)) c))

    Proxies-Calmed :
        {b : Ref} {r : Request} {w w' : World} {resp : Response}
        → Proxies env b r w resp w'
        → CalmedAll w.heap w'.heap
    Proxies-Calmed (answer {w} e) c = Calmed-refl (w.heap c)
    Proxies-Calmed (cancelled {w} e t g) c = Calmed-refl (w.heap c)
    Proxies-Calmed (retries e t g s) c = Proxies-Calmed s c
    Proxies-Calmed (switches {b} {w} e t lt s) c =
        Calmed-trans (mark_failed-Calmed b (send b w) c) (Serves-Calmed s c)

  -- With fuel for every attempt `ServeHTTP` returns, and then every backend, one that is no longer in
  -- the pool included, has as many active connections as before the request, its weight and its URL,
  -- and no backend that was dead is alive.
  pub serve_http-Calmed :
      (f : ℕ) (r : Request) (w : World)
      → max_backend_switches < f
      → (a : Response × World) × (serve_http env f r w ≡ some a) × CalmedAll w.heap a.1.heap
  serve_http-Calmed f r w enough =
      let (a, returned, s) = serve_http-Ends env f r w (omega arith) (omega arith) in
      (a, returned, Serves-Calmed s)
