-- ===== src/Proxy/Frames.antt =====
-- internal/proxy/proxy.go: what a frame of `ServeHTTP` and of the reverse proxy may do, as a pair of
-- relations between the request, the state before, the response and the state after; and the proof
-- that the code, with enough fuel, returns and does one of these things.
use go_lb.Base.{◌≤◌, ◌<◌, ◌≡◌, true, false, none, some, ◌++◌, length}
use go_lb.Backend.{Ref, url_of}
use go_lb.CircuitBreaker.{allow}
use go_lb.Proxy.{
  Answer, max_backend_switches, Request, answered, failed, Env, World, Response, nothing, wrote,
  unavailable, next_attempt, on_breaker, select, mark_failed, settle, peer_cookies,
  get_attempts_from_context, now, begin_frame, end_frame, with_request_id, next_retry, retriable,
  send,
}

module _ (env : Env) where
  mutual
    pub data Serves : Request → World → Response → World → Type 0 where
      over :
          {r : Request} {w : World}
          → max_backend_switches ≤ get_attempts_from_context r
          → Serves r w unavailable w
      nobody :
          {r : Request} {w w' : World}
          → get_attempts_from_context r < max_backend_switches
          → select env r w ≡ (none, w')
          → Serves r w unavailable w'
      refused :
          {r : Request} {w w' w'' w₃ : World} {peer : Ref} {resp : Response}
          → get_attempts_from_context r < max_backend_switches
          → select env r w ≡ (some peer, w')
          → on_breaker env (url_of w'.heap peer) allow w' ≡ (w'', false)
          → Serves (next_attempt r) w'' resp w₃
          → Serves r w resp w₃
      served :
          {r : Request} {w w' w'' w₃ w₄ : World} {peer : Ref} {resp resp' : Response}
          → get_attempts_from_context r < max_backend_switches
          → select env r w ≡ (some peer, w')
          → on_breaker env (url_of w'.heap peer) allow w' ≡ (w'', true)
          → Proxies peer (with_request_id env r w'') (begin_frame env peer w'') resp w₃
          → resp' ≡ record resp { cookies = peer_cookies env peer w'' ++ resp.cookies }
          → w₄
            ≡ end_frame env peer (
                settle env
                  (get_attempts_from_context r)
                  peer
                  (now env w'')
                  resp
                  (with_request_id env r w'')
                  w₃)
          → Serves r w resp' w₄

    pub data Proxies : Ref → Request → World → Response → World → Type 0 where
      answer :
          {b : Ref} {r : Request} {w : World} {code : Answer}
          → env.round_trip (length w.sent) b r ≡ answered code
          → Proxies b r w (wrote code) (send b w)
      cancelled :
          {b : Ref} {r : Request} {w : World}
          → env.round_trip (length w.sent) b r ≡ failed
          → retriable r ≡ true
          → env.client_gone (length w.sent) ≡ true
          → Proxies b r w nothing (send b w)
      retries :
          {b : Ref} {r : Request} {w w' : World} {resp : Response}
          → env.round_trip (length w.sent) b r ≡ failed
          → retriable r ≡ true
          → env.client_gone (length w.sent) ≡ false
          → Proxies b (next_retry r) (send b w) resp w'
          → Proxies b r w resp w'
      switches :
          {b : Ref} {r : Request} {w w' : World} {resp : Response}
          → env.round_trip (length w.sent) b r ≡ failed
          → retriable r ≡ false
          → get_attempts_from_context r < max_backend_switches
          → Serves (next_attempt r) (mark_failed env b (send b w)) resp w'
          → Proxies b r w resp w'
