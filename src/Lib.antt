-- ===== src/Lib.antt =====
-- go-lb: an HTTP load balancer.
--
-- The program listens for requests and passes each on to one of a pool of backends. The proxy
-- (internal/proxy) picks a backend with an algorithm (internal/algo) from those whose circuit breaker
-- (internal/circuitbreaker) lets it, or the one that a session cookie names (internal/sticky), and on
-- an error retries or switches to another. A health checker (internal/health) marks backends dead
-- and alive, as the proxy and the admin API (internal/admin) do, and a reload of the configuration
-- (internal/reload) changes the pool and the settings; all of them share the backends
-- (internal/backend) through the pool (internal/pool), and count what they do (internal/metrics). A
-- rate limiter (internal/ratelimit) may stand before the proxy. The program (cmd/golb) takes its
-- configuration (internal/config) from defaults, a file and flags, checks it, makes the parts, and
-- reads the file again on every SIGHUP.
--
-- Which file models what:
--   Backend         internal/backend/backend.go. Pointers to backends are references into a heap.
--   Pool            internal/pool/pool.go; Pool/Laws has its theorems.
--   Algo            internal/algo/algo.go, with a child for each of round_robin.go,
--                   least_connections.go and weighted_round_robin.go. Algo/Contract is what all of
--                   them promise, Algo/Best the search for the best of a list that two of them make.
--   CircuitBreaker  internal/circuitbreaker/circuitbreaker.go: the breaker; the child Registry is the
--                   type of that name; Invariant, Traces and Probes have the theorems.
--   Sticky          internal/sticky/sticky.go.
--   Metrics         internal/metrics/metrics.go: the updates that the collectors receive.
--   Health          internal/health/health.go.
--   Admin           internal/admin/admin.go: one function for each handler.
--   Config          internal/config/config.go: the records and the defaults. Config/File is
--                   applyFileConfig, Config/Cli applyCLI, Config/Load Load and LoadFile; Config/Settings
--                   says what each setting of a file means, and Config/Valid and Config/Precedence have
--                   the theorems.
--   RateLimit       internal/ratelimit/ratelimit.go; RateLimit/Bucket is about one bucket,
--                   RateLimit/Limiter about the middleware.
--   Reload          internal/reload/reload.go: Diffs is about ComputeDiff, Apply about Apply, Sync
--                   about the URLs of the pool, Weights (with Changes and Pointers) about their weights.
--                   The keys of Go's maps come in an order that is an argument.
--   Middleware      internal/middleware/middleware.go.
--   Proxy           internal/proxy/proxy.go: `serve_http` is ServeHTTP, `proxy_serve` the reverse proxy
--                   of a backend with the error handler that SetupProxy gives it. Proxy/Types has the
--                   state; Proxy/Frames is the pair of relations by which the theorems on whole
--                   requests go, and Proxy/Total ties the code to them; Proxy/Induction says that
--                   what every part of a frame keeps, a request keeps.
--                   Proxy/Overlap is the same code again, as the moves of a thread: each makes one
--                   access of what threads share, and another thread may move before the next. Alone
--                   ties it to `serve_http`, Ends and Exchanges are about the end of a request,
--                   Effects, Known and Turns about what moves do to the shared state.
--   Main            cmd/golb/main.go: the search for the --config flag. Main/Start is `main` up to the
--                   listening servers and gives a System, the parts as one state; Main/Run has the
--                   events that change it, one for each way in which the program is entered;
--                   Main/Live has the same program with a thread for each request, where a moment is a
--                   move of one thread, the result of one probe, or another event; Main/Listeners has
--                   the servers and Main/Shutdown the loop over the signals. Main/Invariant, Served,
--                   Register, Ready, Launch, Hangup, Sync and the children of Live have the theorems.
--   Base            integers, maps, lists and Boolean tests over the native numbers.
--   Examples        the theorems at concrete inputs.
--
-- Operations are functions from a state to a state; an operation that takes a lock is one step, and so
-- is the choice of a backend from a list that the handler has read (the search for the session's
-- backend and the algorithm's `Next`), a call of the admin API and a reload. Between such steps any
-- goroutine may run: a schedule is a list of moments, or for the theorem on fairness an endless
-- sequence of them. The theorems on `serve_http`, which runs a request to its end, hold for a request
-- that nothing comes between. The answers of the network, the clock and the random source are functions
-- of how often they were asked, given as an argument, so a theorem holds for all of them. Base64, JSON
-- and URL parsing are parameters too, and so are YAML, the parsing of flags and durations, and the
-- operations on float64: a float is its bit pattern, and the laws of IEEE 754 that a theorem relies on
-- are the fields of RateLimit/Bucket.IsFloat64.
--
-- Numbers: the sums of the weighted algorithm wrap as an int of 64 bits does (`wrap`), since the
-- weights that it adds have no upper bound; its theorems say which totals fit. The other ints and
-- int64s are unbounded integers: settings, durations, and counts that move by one. The counter of
-- round robin wraps at 2 ^ 64. Lists are shorter than 2 ^ 63. Times are nanoseconds.
--
-- Panics: a reverse proxy that loses the body of a response panics with `http.ErrAbortHandler`, and
-- net/http ends that request alone. The model has it as a response that is aborted: its frames run
-- their deferred calls and record nothing. The only other panic is that of the limiter on a bucket that
-- is not there, and `none` stands for it.
--
-- Fuel: ServeHTTP calls itself through the error handler with one more attempt each time, and stops
-- at 3; fuel of 4 is enough. The retries at one backend are at most 3, which is the fuel of
-- `proxy_serve`; Proxy/Total shows both.
--
-- Not modelled: the logger (internal/logger), which only formats what is logged; what net/http does
-- between accepting a connection and calling the handler, or in Shutdown; what the reverse proxy of
-- net/http/httputil may write before it calls the error handler (informational statuses, 1xx); the
-- signals that os/signal drops while
-- one waits in the channel; and races inside one step, such as a backend that is marked dead while the
-- algorithm goes through the list.
mod Base
pub mod Backend
pub mod Metrics
pub mod Pool
pub mod Algo
pub mod CircuitBreaker
pub mod Sticky
pub mod Admin
pub mod Health
pub mod Middleware
pub mod Config
pub mod RateLimit
pub mod Reload
pub mod Proxy
pub mod Main
pub mod Examples
