-- ===== src/Proxy/Induction.antt =====
-- internal/proxy/proxy.go: what every part of a frame keeps, a whole request keeps.
use go_lb.Base.{ℕ, ◌<◌, String, ◌≡◌, sym, ap, subst, Bool, Option, some, arith}
use go_lb.Backend.{Ref, url_of}
use go_lb.CircuitBreaker.{allow}
use go_lb.Proxy.{
  Env, World, Request, Response, on_breaker, select, settle, mark_failed, begin_frame, end_frame,
  send, max_backend_switches, serve_http,
}
use go_lb.Proxy.Total.{serve_http-Ends}
use go_lb.Proxy.Frames.{
  Serves, over, nobody, refused, served, Proxies, answer, cancelled, retries, switches,
}

-- The parts of a frame keep the predicate.
pub record Kept {ℓ} (env : Env) (P : World → Type ℓ) : Type ℓ where
  pub selects : (r : Request) (w : World) → P w → P (select env r w).1
  pub asks : (url : String) (w : World) → P w → P (on_breaker env url allow w).0
  pub sends : (b : Ref) (w : World) → P w → P (send b w)
  pub marks : (b : Ref) (w : World) → P w → P (mark_failed env b w)
  pub begins : (b : Ref) (w : World) → P w → P (begin_frame env b w)
  pub settles :
      (attempts : ℕ) (b : Ref) (start : ℕ) (resp : Response) (r : Request) (w : World)
      → P w
      → P (settle env attempts b start resp r w)
  pub ends : (b : Ref) (w : World) → P w → P (end_frame env b w)

module _ {ℓ} (env : Env) (P : World → Type ℓ) (kept : Kept env P) where
  chosen : (r : Request) {w w' : World} {o : Option Ref} → select env r w ≡ (o, w') → P w → P w'
  chosen r {w} e p = subst P (ap (λ a. a.1) e) (kept.selects r w p)

  asked :
      (url : String) {w w' : World} {ok' : Bool}
      → on_breaker env url allow w ≡ (w', ok')
      → P w
      → P w'
  asked url {w} e p = subst P (ap (λ a. a.0) e) (kept.asks url w p)

  mutual
    Serves-Kept :
        {r : Request} {w w' : World} {resp : Response} → Serves env r w resp w' → P w → P w'
    Serves-Kept (over done) p = p
    Serves-Kept (nobody {r} lt e) p = chosen r e p
    Serves-Kept (refused {r} {w} {w'} {peer} lt e a s) p =
        Serves-Kept s (asked (url_of w'.heap peer) a (chosen r e p))
    Serves-Kept (served {r} {w} {w'} {w''} {w₃} {peer} lt e a s f g) p = subst P (sym g) (
        kept.ends peer _ (
          kept.settles _ peer _ _ _ w₃
            (Proxies-Kept s (kept.begins peer w'' (asked (url_of w'.heap peer) a (chosen r e p))))))

    Proxies-Kept :
        {b : Ref} {r : Request} {w w' : World} {resp : Response}
        → Proxies env b r w resp w'
        → P w
        → P w'
    Proxies-Kept (answer {b} {w} e) p = kept.sends b w p
    Proxies-Kept (cancelled {b} {w} e t g) p = kept.sends b w p
    Proxies-Kept (retries {b} {w} e t g s) p = Proxies-Kept s (kept.sends b w p)
    Proxies-Kept (switches {b} {w} e t lt s) p =
        Serves-Kept s (kept.marks b (send b w) (kept.sends b w p))

  pub serve_http-Kept :
      (f : ℕ) (r : Request) (w : World)
      → max_backend_switches < f
      → P w
      → (a : Response × World) × (serve_http env f r w ≡ some a) × P a.1
  serve_http-Kept f r w enough p =
      let (a, returned, s) = serve_http-Ends env f r w (omega arith) (omega arith) in
      (a, returned, Serves-Kept s p)
