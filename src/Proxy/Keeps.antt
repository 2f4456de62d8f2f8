-- ===== src/Proxy/Keeps.antt =====
-- internal/proxy/proxy.go: what the parts of a frame leave as it was.
use go_lb.Base.{ℕ, String, ◌≡◌, refl, ap, ◌∙◌, subst, Bool, Option, List, [], ◌∷◌, arith}
use go_lb.Backend.{Ref, url_of}
use go_lb.CircuitBreaker.{Breaker, record_failure, record_success, eligible}
use go_lb.Pool.{backends}
use go_lb.Proxy.{
  Response, status_code, Env, World, Request, on_breaker, filter_eligible, candidates, select,
  settle, mark_failed, tell, recorded, begin_frame, end_frame,
}

-- The heap, the pool, the session affinity and the record of exchanges.
pub record Keeps (w w' : World) : Type 0 where
  pub heap : w'.heap ≡ w.heap
  pub pool : w'.pool ≡ w.pool
  pub sticky : w'.sticky ≡ w.sticky
  pub sent : w'.sent ≡ w.sent

pub Keeps-refl : (w : World) → Keeps w w
Keeps-refl w = record { heap = refl; pool = refl; sticky = refl; sent = refl }

pub Keeps-trans : {u v w : World} → Keeps u v → Keeps v w → Keeps u w
Keeps-trans a b = record {
  heap = b.heap ∙ a.heap;
  pool = b.pool ∙ a.pool;
  sticky = b.sticky ∙ a.sticky;
  sent = b.sent ∙ a.sent;
}

module _ (env : Env) where
  pub on_breaker-Keeps :
      (url : String) (f : ℕ → Breaker → Breaker × Bool) (w : World)
      → Keeps w (on_breaker env url f w).0
  unfolding on_breaker
  on_breaker-Keeps url f w = ground arith

  filter_eligible-Keeps : (bs : List Ref) (w : World) → Keeps w (filter_eligible env bs w).1
  unfolding filter_eligible
  filter_eligible-Keeps [] w = Keeps-refl w
  filter_eligible-Keeps (b ∷ bs) w =
      Keeps-trans (on_breaker-Keeps (url_of w.heap b) (λ t cb. (cb, eligible t cb)) w)
        (filter_eligible-Keeps bs _)

  pub candidates-Keeps : (w : World) → Keeps w (candidates env w).1
  unfolding candidates
  candidates-Keeps w = ground (arith, filter_eligible-Keeps (backends w.pool) w)

  pub select-Keeps : (r : Request) (w : World) → Keeps w (select env r w).1
  unfolding select
  select-Keeps r w = ground (arith, candidates-Keeps w)

  pub settle-Keeps :
      (attempts : ℕ) (peer : Ref) (start : ℕ) (resp : Response) (r : Request) (w : World)
      → Keeps w (settle env attempts peer start resp r w)
  unfolding settle
  settle-Keeps attempts peer start resp r w = ground (
    arith,
    on_breaker-Keeps (url_of w.heap peer) (tell env record_failure)
        (recorded env peer start (status_code resp) w),
    on_breaker-Keeps (url_of w.heap peer) (tell env (λ _ b. record_success b))
        (recorded env peer start (status_code resp) w),
  )

  pub mark_failed-sent : (b : Ref) (w : World) → (mark_failed env b w).sent ≡ w.sent
  unfolding mark_failed
  mark_failed-sent b w = (on_breaker-Keeps (url_of w.heap b) (tell env record_failure) _).sent

  pub chosen-Keeps :
      (r : Request) {w w' : World} {o : Option Ref} → select env r w ≡ (o, w') → Keeps w w'
  chosen-Keeps r {w} e = subst (Keeps w) (ap (λ a. a.1) e) (select-Keeps r w)

  pub asked-Keeps :
      (url : String) (f : ℕ → Breaker → Breaker × Bool) {w w' : World} {answer : Bool}
      → on_breaker env url f w ≡ (w', answer)
      → Keeps w w'
  asked-Keeps url f {w} e = subst (Keeps w) (ap (λ a. a.0) e) (on_breaker-Keeps url f w)

  pub begin_frame-sent : (peer : Ref) (w : World) → (begin_frame env peer w).sent ≡ w.sent
  unfolding begin_frame
  begin_frame-sent peer w = refl

  pub end_frame-sent : (peer : Ref) (w : World) → (end_frame env peer w).sent ≡ w.sent
  unfolding end_frame
  end_frame-sent peer w = refl
