-- ===== src/Examples/Overlap.antt =====
-- Requests that overlap with one another and with probes and admin calls.
use go_lb.Main.Live.Answers.{live-Proper}
use go_lb.Proxy.Overlap.Answers.{Proper}
use go_lb.Base.{
  sym, subst, ap, get_elem?, ℕ, zero, suc, true, ◌*◌, ◌≤◌, ◌≡◌, refl, none, some, List, [], ◌∷◌,
  map, arith, ◌==◌, if◌then◌else◌, All, In, replicate,
}
use go_lb.Base.Int.{pos}
use go_lb.Backend.{Ref, Heap, is_alive}
use go_lb.Proxy.Overlap.Effects.{in_flight}
use go_lb.Health.{responded}
use go_lb.Admin
use go_lb.Algo
use go_lb.Algo.{least_connections}
use go_lb.Algo.LeastConnections
use go_lb.Sticky.{from_request, cookie}
use go_lb.RateLimit
use go_lb.CircuitBreaker.{eligible, allow, record_failure, record_success, new_breaker}
use go_lb.CircuitBreaker.Registry.{new_registry, with_breaker, get}
use go_lb.Algo.RoundRobin
use go_lb.Pool.{has_url, mark_backend_status, add_backend}
use go_lb.Backend.{set_alive, incr_conns, decr_conns}
use go_lb.Proxy.{on_breaker, mark_down, begin_frame, end_frame, get_or_create_request_id}
use go_lb.Main.Start.{enlist}
use go_lb.Sticky.{set_cookie}
use go_lb.Main.Start.{proxy_opts}
use go_lb.Backend.{active_conns}
use go_lb.Main.Live.{admit}
use go_lb.Proxy.Overlap.{take_turn, move}
use go_lb.Proxy.{new_load_balancer}
use go_lb.Proxy.{peer_cookies, unavailable, Response, World, serve_http, pinned, choose}
use go_lb.Proxy.Bounds.{trips, switches_left}
use go_lb.Proxy.Overlap.{Thread, at, arrived, returning, sending, IsDone}
use go_lb.Proxy.Overlap.Alone.{moves, serve_http-moves}
use go_lb.Proxy.Overlap.Exchanges.{exchanges, exchanges-trips}
use go_lb.Main.Launch.{launch-Inv}
use go_lb.Main.Live.{
  Live, Moment, arrival, turn, probe, round_over, admin_call, hangup, cleanup, live, move_one,
  happen,
}
use go_lb.Main.Live.Invariant.{Sound}
use go_lb.Main.Live.Fair.{Course, Answered, fair-answered}
use go_lb.Main.Live.Launch.{resting, launch-live, live-rest, choose-least}
use go_lb.Examples.Data.{heap, pair, pair-Distinct}
use go_lb.Examples.Configs.{read}
use go_lb.Examples.Limits.{readings}
use go_lb.Examples.Requests.{env, post, world}
use go_lb.Examples.Systems.{outside, system, arguments, launches}

serve_http-moves_example :
    (a : Response × World) × (serve_http env 4 post world ≡ some a)
    × (n : ℕ) × (moves env n (world, arrived post) ≡ (a.1, at (returning a.0) []))
serve_http-moves_example = serve_http-moves env 4 post world (omega arith)

exchanges-trips_example :
    exchanges env (λ k. world) 9 (arrived post) ≤ switches_left post * trips "POST"
exchanges-trips_example = exchanges-trips env 9 post (λ k. world)

-- Two requests, a probe that fails and an admin call between their moves.
abbrev mixed : List Moment
mixed =
    arrival "h:80" readings post
    ∷ arrival "h:81" readings post
    ∷ turn 0
    ∷ turn 1
    ∷ turn 0
    ∷ probe 0 (responded 500)
    ∷ turn 0
    ∷ turn 1
    ∷ admin_call (Admin.add "http://b")
    ∷ turn 0
    ∷ hangup (read "http://c") ("http://a" ∷ []) ("http://c" ∷ [])
    ∷ turn 1
    ∷ cleanup 9
    ∷ round_over
    ∷ []

launch-live_example : (l : Live) × (live outside mixed (resting system) ≡ some l) × Sound l
launch-live_example = launch-live outside (read "http://a") arguments mixed system launches

-- The first thread moves at every moment.
moved : ℕ → Live
moved zero = record { system = system; threads = arrived post ∷ [] }
moved (suc k) = move_one outside 0 (moved k)

moved-steps : (k : ℕ) → happen outside (turn 0) (moved k) ≡ some (moved (suc k))
unfolding happen moved
moved-steps k = refl

abbrev endless : Course outside
endless = record { moments = λ k. turn 0; states = moved; steps = moved-steps }

fair-answered_example : Answered outside endless 0
unfolding moved
fair-answered_example = fair-answered outside endless 0 0 post (λ k. (0, refl)) refl

-- The second backend is free, and a request is under way at the first.
abbrev busy : Thread
busy =
    at (sending 0 post)
      (record { peer = 0; attempts = 0; start = 0; request = post; set_cookies = [] } ∷ [])

abbrev busy_heap : Heap
busy_heap c = record (heap c) { active_conns = if c == 0 then pos 1 else pos 0 }

abbrev shared : Live
shared = record {
  system = record system {
    world = record system.world { heap = busy_heap; pool = pair; algo = least_connections };
    allocated = 2;
  };
  threads = busy ∷ [];
}

shared-Sound : Sound shared
shared-Sound =
    let v = launch-Inv outside (read "http://a") arguments system launches in
    record {
      system = record {
        distinct = pair-Distinct;
        allocated = (omega arith, (omega arith, tt));
        counts = λ c. ground arith;
        fresh = λ c above. ground arith;
        checker = v.checker;
        ticker = v.ticker;
        breakers = v.breakers;
        limits = v.limits;
      };
      known = (record { stage = tt; frames = (omega arith, tt) }, tt);
    }

picks_free : (choose outside.net post shared.system.world pair).0 ≡ some 1
unfolding choose pinned Algo.next LeastConnections.next new_load_balancer proxy_opts is_alive
    active_conns from_request cookie LeastConnections.scan
picks_free = refl

choose-least_example :
    In 1 pair
    × (is_alive busy_heap 1 ≡ true)
    × ((b : Ref)
        → In b pair
        → is_alive busy_heap b ≡ true
        → in_flight shared.threads 1 ≤ in_flight shared.threads b)
unfolding pinned new_load_balancer proxy_opts is_alive from_request cookie
choose-least_example = choose-least outside shared post pair 1 shared-Sound refl refl picks_free

-- The request fails at the only backend, and is answered 503.
abbrev one_request : List Moment
one_request = arrival "h:80" readings post ∷ map turn (replicate 17 0)

abbrev settled : Live
settled = elim (live outside one_request (resting system)) [ none ↦ resting system | some l ↦ l ]

lived : live outside one_request (resting system) ≡ some settled
unfolding live happen admit move_one take_turn move new_load_balancer proxy_opts RateLimit.limit
    RateLimit.allow_ip RateLimit.allow RateLimit.refill RateLimit.entry_of RateLimit.new_bucket
lived = refl

abbrev last_response : Response
last_response = record unavailable { cookies = peer_cookies env 0 system.world }

settled-threads : settled.threads ≡ at (returning last_response) [] ∷ []
unfolding live happen admit move_one take_turn move new_load_balancer proxy_opts RateLimit.limit
    RateLimit.allow_ip RateLimit.allow RateLimit.refill RateLimit.entry_of RateLimit.new_bucket
    on_breaker eligible allow record_failure record_success with_breaker get new_breaker choose
    pinned from_request cookie is_alive Algo.next RoundRobin.next RoundRobin.scan mark_down
    mark_backend_status set_alive begin_frame end_frame get_or_create_request_id enlist add_backend
    incr_conns decr_conns set_cookie has_url new_registry
settled-threads = refl

all_answered : All IsDone settled.threads
all_answered = subst (All IsDone) (sym settled-threads) ((last_response, refl), tt)

live-Proper_example : Proper env last_response
live-Proper_example =
    live-Proper outside one_request system settled 0 last_response lived
      (ap (λ ts. get_elem? ts 0) settled-threads)

live-rest_example : (settled.system.world.heap 0).active_conns ≡ pos 0
live-rest_example =
    live-rest outside (read "http://a") arguments one_request system settled launches lived
      all_answered 0
