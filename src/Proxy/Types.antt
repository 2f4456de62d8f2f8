-- ===== src/Proxy/Types.antt =====
-- internal/proxy/proxy.go: a request, what the code asks of others, the state that a request runs
-- on, and what it writes.
use go_lb.Base.{
  ℕ, ◌+◌, String, Bool, false, ◌&&◌, ◌||◌, Option, some, List, [], ◌∷◌, ◌++◌, ltb, str_eq, get_or,
  none,
}
use go_lb.Backend.{Ref, Heap}
use go_lb.Metrics.{Metrics}
use go_lb.Pool.{ServerPool}
use go_lb.Algo.{Algorithm}
use go_lb.CircuitBreaker.Registry.{Registry}
use go_lb.Sticky.{Codec, Affinity, Cookie, Cookies}

abbrev pub max_backend_switches : ℕ
max_backend_switches = 3

abbrev pub max_retries : ℕ
max_retries = 3

-- `idempotentMethods[r.Method]`
abbrev pub idempotent : String → Bool
idempotent method = str_eq method "GET" || str_eq method "HEAD" || str_eq method "OPTIONS"

-- A request, with the three values that its context may hold.
pub record Request : Type 0 where
  pub method : String
  pub cookies : Cookies
  pub attempts : Option ℕ
  pub retry : Option ℕ
  pub request_id : Option String

abbrev pub get_attempts_from_context : Request → ℕ
get_attempts_from_context r = get_or r.attempts 0

abbrev pub get_retry_from_context : Request → ℕ
get_retry_from_context r = get_or r.retry 0

-- A response of a backend, with the informational statuses (1xx) that came before it. Where its body
-- breaks off, the reverse proxy panics with `http.ErrAbortHandler` after it has written the status.
pub record Answer : Type 0 where
  pub informational : List ℕ
  pub code : ℕ
  pub breaks_off : Bool

-- One exchange of the reverse proxy with a backend: a response, which it writes, or an error, which it
-- hands to the error handler.
pub data Reply : Type 0 where
  answered : (answer : Answer) → Reply
  failed : Reply

-- What code that is not the program's answers. The exchanges and the ends of a retry's wait are
-- counted by the exchanges made so far, readings of the clock (in nanoseconds) by themselves, and the
-- request ids by the readings made so far.
pub record Env : Type 0 where
  pub round_trip : ℕ → Ref → Request → Reply
  pub client_gone : ℕ → Bool
  pub clock : ℕ → ℕ
  pub random_id : ℕ → Option String
  pub timestamp_id : ℕ → String
  pub codec : Codec

-- The LoadBalancer with what it shares with the other parts, and two records of what it did: the
-- backends with which an exchange was made, oldest first, and the readings of the clock.
pub record World : Type 0 where
  pub heap : Heap
  pub pool : ServerPool
  pub algo : Algorithm
  pub cb_registry : Option Registry
  pub sticky : Option Affinity
  pub metrics : Metrics
  pub sent : List Ref
  pub readings : ℕ

-- `Option`
abbrev pub Setting : Type 0
Setting = World → World

abbrev pub with_circuit_breaker : Registry → Setting
with_circuit_breaker r lb = record lb { cb_registry = some r }

abbrev pub with_sticky_session : Affinity → Setting
with_sticky_session a lb = record lb { sticky = some a }

-- `SetAlgorithm`
abbrev pub set_algorithm : Algorithm → World → World
set_algorithm a lb = record lb { algo = a }

apply_options : List Setting → World → World
apply_options [] lb = lb
apply_options (o ∷ os) lb = apply_options os (o lb)

-- `New`, with the heap and the metrics around it.
unfoldable pub new_load_balancer : Heap → Metrics → ServerPool → Algorithm → List Setting → World
unfolding apply_options
new_load_balancer h m p a opts = apply_options opts (record {
  heap = h;
  pool = p;
  algo = a;
  cb_registry = none;
  sticky = none;
  metrics = m;
  sent = [];
  readings = 0;
})

-- What a frame wrote: the cookies that it added, and the status codes of `WriteHeader`; and whether it
-- ended by the panic of a reverse proxy, which goes on through all frames to the server.
pub record Response : Type 0 where
  pub cookies : List Cookie
  pub statuses : List ℕ
  pub aborted : Bool

abbrev pub nothing : Response
nothing = record { cookies = []; statuses = []; aborted = false }

abbrev pub wrote : Answer → Response
wrote a = record { cookies = []; statuses = a.informational ++ a.code ∷ []; aborted = a.breaks_off }

-- `http.Error(w, "Service not available", http.StatusServiceUnavailable)`
abbrev pub unavailable : Response
unavailable = record { cookies = []; statuses = 503 ∷ []; aborted = false }

-- `statusCode` of a `responseWriter`: 200 until `WriteHeader` sets it, then the last code. The
-- writes of inner frames go through the writers of the outer ones.
abbrev pub status_code_from : ℕ → List ℕ → ℕ
status_code_from code [] = code
status_code_from code (c ∷ cs) = status_code_from c cs

abbrev pub status_code : Response → ℕ
status_code resp = status_code_from 200 resp.statuses

abbrev pub Handler : Type 0
Handler = Request → World → Option (Response × World)

-- The request for the next backend: `attempts+1`, and retries from 0.
abbrev pub next_attempt : Request → Request
next_attempt r = record r { attempts = some (get_attempts_from_context r + 1); retry = some 0 }

-- The same request for the same backend, with one more retry counted.
abbrev pub next_retry : Request → Request
next_retry r = record r { retry = some (get_retry_from_context r + 1) }

-- The error handler's test for another exchange with the same backend.
abbrev pub retriable : Request → Bool
retriable r = ltb (get_retry_from_context r) max_retries && idempotent r.method

abbrev pub send : Ref → World → World
send b w = record w { sent = w.sent ++ b ∷ [] }
