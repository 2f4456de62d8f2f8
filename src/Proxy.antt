-- ===== src/Proxy.antt =====
-- internal/proxy/proxy.go: the handling of one request, from `ServeHTTP` through the reverse proxy
-- and its error handler, which calls `ServeHTTP` again to switch backends.
--
-- A handler takes the state of the program and gives the one after it, with what it wrote to its
-- ResponseWriter. It is run to its end: other requests, probes and admin calls come before or after
-- it. What the network, the clock and the random source answer is an argument, `Env`. The recursion
-- runs on fuel; Proxy/Total shows how much is enough.
mod Types
pub mod Frames
pub mod Total
mod Keeps
pub mod Induction
pub mod Breakers
pub mod Bounds
pub mod Connections
pub mod Selection
pub mod Accounting
pub mod Overlap
unfoldable pub use Types.*
use go_lb.Base.{
  ℕ, zero, suc, ◌-◌, String, Bool, true, false, ◌&&◌, Option, none, some, List, [], ◌∷◌, ◌++◌, ltb,
  leb, ◌==◌, str_eq, if◌then◌else◌, length,
}
use go_lb.Backend.{Ref, Heap, url_of, is_alive, incr_conns, decr_conns}
use go_lb.Metrics.{record_request, incr_active_conns, decr_active_conns}
use go_lb.Pool.{backends, mark_backend_status}
use go_lb.Algo
use go_lb.CircuitBreaker.{Breaker, eligible, allow, record_success, record_failure}
use go_lb.CircuitBreaker.Registry.{with_breaker}
use go_lb.Sticky.{Cookie, from_request, set_cookie}

unfoldable pub find_pinned : Heap → String → List Ref → Option Ref
find_pinned h target [] = none
find_pinned h target (b ∷ bs) =
    if str_eq (url_of h b) target && is_alive h b then some b else find_pinned h target bs

module _ (env : Env) where
  abbrev pub now : World → ℕ
  now w = env.clock w.readings

  -- A call on the breaker of a URL, with a reading of the clock, if there is a registry.
  unfoldable pub on_breaker : String → (ℕ → Breaker → Breaker × Bool) → World → World × Bool
  on_breaker url f w = elim w.cb_registry [
    | none ↦ (w, true)
    | some reg ↦
        let (reg', answer) = with_breaker reg url (f (now w)) in
        (record w { cb_registry = some reg'; readings = suc w.readings }, answer)
  ]

  abbrev pub tell : (ℕ → Breaker → Breaker) → ℕ → Breaker → Breaker × Bool
  tell f t b = (f t b, true)

  -- The loop that fills `filtered`.
  unfoldable pub filter_eligible : List Ref → World → List Ref × World
  filter_eligible [] w = ([], w)
  filter_eligible (b ∷ bs) w =
      let (w', ok) = on_breaker (url_of w.heap b) (λ t cb. (cb, eligible t cb)) w in
      let (filtered, w'') = filter_eligible bs w' in (if ok then b ∷ filtered else filtered, w'')

  -- The backends to select from: those with an eligible breaker, or all if there are none.
  unfoldable pub candidates : World → List Ref × World
  candidates w = elim w.cb_registry [
    | none ↦ (backends w.pool, w)
    | some _ ↦
        let (filtered, w') = filter_eligible (backends w.pool) w in
        (if length filtered == 0 then backends w.pool else filtered, w')
  ]

  unfoldable pub pinned : Request → World → List Ref → Option Ref
  pinned r w bs = elim w.sticky [
    | none ↦ none
    | some a ↦
        let target = from_request env.codec a r.cookies in
        if str_eq target "" then none else find_pinned w.heap target bs
  ]

  -- The sticky session first, then the algorithm.
  unfoldable pub choose : Request → World → List Ref → Option Ref × World
  choose r w bs = elim (pinned r w bs) [
    | some peer ↦ (some peer, w)
    | none ↦ let (algo', peer) = Algo.next w.heap w.algo bs in (peer, record w { algo = algo' })
  ]

  unfoldable pub select : Request → World → Option Ref × World
  unfolding choose
  select r w = let (bs, w') = candidates w in choose r w' bs

  unfoldable pub get_or_create_request_id : Request → World → String
  get_or_create_request_id r w = elim r.request_id [
    | some id ↦ id
    | none ↦ elim (env.random_id w.readings) [ some id ↦ id | none ↦ env.timestamp_id w.readings ]
  ]

  -- The error handler when it does not retry: the backend is marked dead, and its breaker records the
  -- failure.
  unfoldable pub mark_down : Ref → World → World
  mark_down b w =
      let (heap', metrics') = mark_backend_status w.heap w.metrics w.pool (url_of w.heap b) false in
      record w { heap = heap'; metrics = metrics' }

  unfoldable pub mark_failed : Ref → World → World
  unfolding mark_down
  mark_failed b w = (on_breaker (url_of w.heap b) (tell record_failure) (mark_down b w)).0

  -- Then `again`, which is `ServeHTTP`, gets the request for another backend.
  unfoldable pub give_up : Handler → Ref → Handler
  give_up again b r w =
      if ltb (get_attempts_from_context r) max_backend_switches
      then again (next_attempt r) (mark_failed b w)
      else some (unavailable, mark_failed b w)

  -- `proxy.ServeHTTP` of the backend's reverse proxy, with the error handler of `SetupProxy`.
  unfoldable pub proxy_serve : Handler → ℕ → Ref → Handler
  proxy_serve again zero b r w = none
  proxy_serve again (suc f) b r w =
      let retried = proxy_serve again f b (next_retry r) (send b w) in
      elim (env.round_trip (length w.sent) b r) [
        | answered a ↦ some (wrote a, send b w)
        | failed ↦
            if retriable r
            then if env.client_gone (length w.sent) then some (nothing, send b w) else retried
            else give_up again b r (send b w)
      ]

  -- `metrics.RecordRequest` with the time that has passed since `start`.
  abbrev pub recorded : Ref → ℕ → ℕ → World → World
  recorded peer start code w = record w {
    metrics = record_request w.metrics (url_of w.heap peer) code (now w - start);
    readings = suc w.readings;
  }

  -- After the exchange: metrics and the breaker's record, if the request's context still says the
  -- attempt of this frame. (`r` is the frame's own variable; other frames have requests of their
  -- own.) A panic leaves it out.
  unfoldable pub settle : ℕ → Ref → ℕ → Response → Request → World → World
  settle attempts peer start resp r w =
      let code = status_code resp in
      if resp.aborted
      then w
      else if get_attempts_from_context r == attempts
      then (if leb 500 code
          then (on_breaker (url_of w.heap peer) (tell record_failure)
              (recorded peer start code w)).0
          else (on_breaker (url_of w.heap peer) (tell (λ _ b. record_success b))
              (recorded peer start code w)).0)
      else record w { readings = suc w.readings }

  abbrev pub peer_cookies : Ref → World → List Cookie
  peer_cookies peer w = elim w.sticky [
    | none ↦ []
    | some a ↦ set_cookie env.codec a (url_of w.heap peer) ∷ []
  ]

  -- `ServeHTTP` up to the reverse proxy: the connection is counted, twice.
  unfoldable pub begin_frame : Ref → World → World
  begin_frame peer w = record w {
    heap = incr_conns w.heap peer;
    metrics = incr_active_conns w.metrics (url_of w.heap peer);
    readings = suc w.readings;
  }

  -- The deferred calls.
  unfoldable pub end_frame : Ref → World → World
  end_frame peer w = record w {
    heap = decr_conns w.heap peer;
    metrics = decr_active_conns w.metrics (url_of w.heap peer);
  }

  abbrev pub with_request_id : Request → World → Request
  with_request_id r w = record r { request_id = some (get_or_create_request_id r w) }

  -- `ServeHTTP` from the selected backend on.
  unfoldable pub forward : Handler → Ref → Handler
  forward again peer r w =
      let r' = with_request_id r w in
      elim (proxy_serve again (suc max_retries) peer r' (begin_frame peer w)) [
        | none ↦ none
        | some (resp, w') ↦ some (
          record resp { cookies = peer_cookies peer w ++ resp.cookies },
          end_frame peer (settle (get_attempts_from_context r) peer (now w) resp r' w'),
        )
      ]

  -- `ServeHTTP`. `none` means that the fuel ran out.
  unfoldable pub serve_http : ℕ → Handler
  serve_http zero r w = none
  serve_http (suc f) r w =
      if leb max_backend_switches (get_attempts_from_context r)
      then some (unavailable, w)
      else (let (choice, w') = select r w in
          elim choice [
            | none ↦ some (unavailable, w')
            | some peer ↦
                let (w'', allowed) = on_breaker (url_of w'.heap peer) allow w' in
                elim allowed [
                  | false ↦ serve_http f (next_attempt r) w''
                  | true ↦ forward (serve_http f) peer r w''
                ]
          ])
