-- ===== src/Examples/Requests.antt =====
-- internal/proxy: a balancer over the two backends, of which the first does not answer.
use go_lb.Proxy.Accounting.{breaker_at, forward-forgets, forward-forgives}
use go_lb.Pool.{mark_backend_status}
use go_lb.Proxy.Bounds.{switches_left, trips, serve_http-trips}
use go_lb.Proxy.Connections.{CalmedAll, serve_http-Calmed}
use go_lb.Proxy.Selection.{select_sound, serve_http-unavailable}
use go_lb.Proxy.Total.{Ends, serve_http-Ends}
use go_lb.Metrics.{no_metrics, set_backend_up, incr_active_conns, decr_active_conns, record_request}
use go_lb.Base.{
  ◌+◌, ◌*◌, ◌≤◌, ◌≡◌, refl, true, false, Option, none, some, [], arith, ◌==◌, if◌then◌else◌, length,
  All, In, empty_map, insert,
}
use go_lb.Base.Int.{pos}
use go_lb.Examples.Data.{heap, pair}
use go_lb.Proxy.{
  Answer, Env, World, Request, Response, failed, serve_http, select, answered, candidates,
  unavailable, next_attempt, forward, filter_eligible, with_request_id, proxy_serve, on_breaker,
  mark_failed, settle, pinned, send, end_frame, begin_frame, wrote,
}
use go_lb.Backend.{Heap, is_alive, set_alive, incr_conns, decr_conns, url_of}
use go_lb.Algo
use go_lb.Algo.RoundRobin
use go_lb.Algo.{round_robin}
use go_lb.CircuitBreaker.Registry.{Registry, with_breaker, get}
use go_lb.CircuitBreaker.{
  closed, Breaker, eligible, new_breaker, record_success, record_failure, allow,
}

abbrev plain_answer : Answer
plain_answer = record { informational = []; code = 200; breaks_off = false }

abbrev pub env : Env
env = record {
  round_trip = λ n b r. if b == 0 then failed else answered plain_answer;
  client_gone = λ n. false;
  clock = λ n. n;
  random_id = λ n. none;
  timestamp_id = λ n. "id";
  codec = record { encode = λ s. s; decode = λ s. some s; ceil_seconds = λ t. t };
}

abbrev breaker : Breaker
breaker = record {
  state = closed;
  failures = 1;
  successes = 0;
  failure_threshold = 5;
  success_threshold = 2;
  timeout = 2_000_000;
  last_failure = 0;
  half_open_permit = false;
}

abbrev registry : Registry
registry = record {
  breakers = insert empty_map "http://a" breaker;
  cfg = record { failure_threshold = pos 5; success_threshold = pos 2; timeout = pos 2_000_000 };
}

abbrev pub world : World
world = record {
  heap = heap;
  pool = pair;
  algo = round_robin 1;
  cb_registry = some registry;
  sticky = none;
  metrics = no_metrics;
  sent = [];
  readings = 0;
}

abbrev pub post : Request
post = record {
  method = "POST";
  cookies = [];
  attempts = none;
  retry = none;
  request_id = some "r";
}

serve_http-Ends_example : Ends env post world (serve_http env 4 post world)
serve_http-Ends_example = serve_http-Ends env 4 post world (omega arith) (omega arith)

serve_http-Calmed_example :
    (a : Response × World) × (serve_http env 4 post world ≡ some a) × CalmedAll heap a.1.heap
serve_http-Calmed_example = serve_http-Calmed env 4 post world (omega arith)

serve_http-trips_example :
    (a : Response × World) × (serve_http env 4 post world ≡ some a)
    × (length a.1.sent ≤ 0 + switches_left post * trips "POST")
serve_http-trips_example = serve_http-trips env 4 post world (omega arith)

picks_a : (select env post world).0 ≡ some 0
unfolding select candidates filter_eligible on_breaker pinned is_alive Algo.next RoundRobin.next
    RoundRobin.scan eligible with_breaker get new_breaker
picks_a = refl

select_sound_example : In 0 pair × (is_alive heap 0 ≡ true)
select_sound_example = select_sound env post world 0 picks_a

abbrev dead_heap : Heap
dead_heap c = record (heap c) { alive = false }

nobody_lives : All (λ b. is_alive dead_heap b ≡ false) pair
unfolding is_alive
nobody_lives = (refl, (refl, tt))

serve_http-unavailable_example :
    (w' : World) × (serve_http env 4 post (record world { heap = dead_heap })
      ≡ some (unavailable, w'))
    × (w'.sent ≡ [])
serve_http-unavailable_example =
    serve_http-unavailable env 3 post (record world { heap = dead_heap }) nobody_lives

-- What `ServeHTTP` does with the request that failed at the first backend.
abbrev switched : Option (Response × World)
switched =
    serve_http env 3 (next_attempt (with_request_id env post world))
      (mark_failed env 0 (send 0 (begin_frame env 0 world)))

abbrev after : World
after = elim switched [ none ↦ world | some a ↦ a.1 ]

switched-answered : switched ≡ some (wrote plain_answer, after)
unfolding serve_http forward proxy_serve settle end_frame begin_frame mark_failed select candidates
    filter_eligible on_breaker pinned is_alive Algo.next RoundRobin.next RoundRobin.scan eligible
    with_breaker get new_breaker record_success record_failure allow mark_backend_status set_alive
    set_backend_up incr_conns decr_conns incr_active_conns decr_active_conns record_request
switched-answered = refl

after-url : url_of after.heap 0 ≡ "http://a"
unfolding serve_http forward proxy_serve settle end_frame begin_frame mark_failed select candidates
    filter_eligible on_breaker pinned is_alive Algo.next RoundRobin.next RoundRobin.scan eligible
    with_breaker get new_breaker record_success record_failure allow mark_backend_status set_alive
    set_backend_up incr_conns decr_conns incr_active_conns decr_active_conns record_request
after-url = refl

after-breaker :
    breaker_at after "http://a"
    ≡ breaker_at (mark_failed env 0 (send 0 (begin_frame env 0 world))) "http://a"
unfolding serve_http forward proxy_serve settle end_frame begin_frame mark_failed select candidates
    filter_eligible on_breaker pinned is_alive Algo.next RoundRobin.next RoundRobin.scan eligible
    with_breaker get new_breaker record_success record_failure allow mark_backend_status set_alive
    set_backend_up incr_conns decr_conns incr_active_conns decr_active_conns record_request
after-breaker = refl

forward-forgets_example :
    (a : Response × World) × (forward env (serve_http env 3) 0 post world ≡ some a)
    × (breaker_at a.1 "http://a" ≡ some (record breaker { failures = 0 }))
forward-forgets_example =
    forward-forgets env (serve_http env 3) 0 post world breaker (wrote plain_answer) after refl refl
      (omega arith) (omega arith) refl refl switched-answered refl (omega arith) after-url
      after-breaker

-- A request that may be retried, from a client that does not wait for that.
abbrev lookup : Request
lookup = record post { method = "GET" }

abbrev hasty : Env
hasty = record env { client_gone = λ n. true }

forward-forgives_example :
    (a : Response × World) × (forward hasty (serve_http hasty 3) 0 lookup world ≡ some a)
    × (a.0.statuses ≡ [])
    × (breaker_at a.1 "http://a" ≡ some (record_success breaker))
forward-forgives_example =
    forward-forgives hasty (serve_http hasty 3) 0 lookup world breaker refl refl refl refl
