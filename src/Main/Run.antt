-- ===== src/Main/Run.antt =====
-- cmd/golb/main.go: the running program as a sequence of events, each of which runs to its end:
-- requests, rounds of the health checker, calls of the admin API, SIGHUPs and the limiter's cleanup.
use go_lb.Base.{
  ℕ, suc, String, Option, none, some, List, [], ◌∷◌, ◌==◌, str_eq, if◌then◌else◌, length, ok, err,
}
use go_lb.Base.Int.{ℤ}
use go_lb.Config.File.{Library}
use go_lb.Config.Cli.{Shell}
use go_lb.Config.Load.{Reading, load_file}
use go_lb.Config.{Config}
use go_lb.Backend.{Ref}
use go_lb.Algo
use go_lb.Health
use go_lb.Health.{Probe, Site}
use go_lb.Pool.{backends}
use go_lb.Admin
use go_lb.Admin.{Decoding, Server, Answer}
use go_lb.RateLimit
use go_lb.RateLimit.{Readings, Outcome, passed, too_many_requests}
use go_lb.Reload.{Running, compute_diff, apply}
use go_lb.Proxy.{set_algorithm, Env, World, Request, Response, serve_http, max_backend_switches}
use go_lb.Main.Start.{Platform, System}

-- What the events of a run answer that is not the program's.
pub record Outside : Type 0 where
  pub os : Platform
  pub net : Env
  pub json : Decoding
  pub split_host_port : String → Option String
  pub library : Library
  pub shell : Shell

-- The probes are those of the backends of a round with what they bring, in the order in which they
-- are counted. At a SIGHUP the file reads as `read` says, and Go goes through the keys of the two
-- maps in the orders given.
pub data Event : Type 0 where
  request : (remote_addr : String) (now : Readings) (r : Request) → Event
  round : (probes : List (Ref × Probe)) → Event
  admin_call : Admin.Call → Event
  hangup : (read : String → Reading) (old_keys new_keys : List String) → Event
  cleanup : (now : ℕ) → Event

abbrev pub fuel : ℕ
fuel = suc max_backend_switches

abbrev pub site : System → Site
site s = record { heap = s.world.heap; metrics = s.world.metrics; checker = s.checker }

abbrev pub server : System → Server
server s = record {
  heap = s.world.heap;
  allocated = s.allocated;
  metrics = s.world.metrics;
  pool = s.world.pool;
}

abbrev pub running : System → Running
running s = record {
  heap = s.world.heap;
  allocated = s.allocated;
  metrics = s.world.metrics;
  pool = s.world.pool;
  algo = s.world.algo;
  checker = s.checker;
}

abbrev pub with_site : ℤ × Site → System → System
with_site (interval, p) s = record s {
  world = record s.world { heap = p.heap; metrics = p.metrics };
  checker = p.checker;
  current_interval = interval;
}

abbrev pub with_server : Server → System → System
with_server p s = record s {
  world = record s.world { heap = p.heap; metrics = p.metrics; pool = p.pool };
  allocated = p.allocated;
}

abbrev pub with_running : Running → System → System
with_running p s = record s {
  world =
      set_algorithm p.algo (record s.world { heap = p.heap; metrics = p.metrics; pool = p.pool });
  allocated = p.allocated;
  checker = p.checker;
}

-- A tick of `cleanup`, where there is a limiter.
unfoldable pub clean : ℕ → System → System
clean now s = elim s.limiter [
  | none ↦ s
  | some l ↦ record s { limiter = some (RateLimit.evict now l) }
]

module _ (out : Outside) where
  abbrev pub handle_request : Request → System → Unit {0} → Option (Response × World)
  handle_request r s _ = serve_http out.net fuel r s.world

  -- A request through the middleware, if there is a limiter, and the balancer. `none` is a panic, or
  -- that the fuel ran out.
  unfoldable pub serve : String → Readings → Request → System → Option (System × Outcome Response)
  serve remote_addr now r s = elim s.limiter [
    | none ↦ elim (handle_request r s tt) [
      | none ↦ none
      | some (resp, w) ↦ some (record s { world = w }, passed resp)
    ]
    | some l ↦
        elim (RateLimit.limit out.os.float out.split_host_port remote_addr now (handle_request r s)
          l) [
            | none ↦ none
            | some (l', too_many_requests seconds) ↦
                some (record s { limiter = some l' }, too_many_requests seconds)
            | some (l', passed none) ↦ none
            | some (l', passed (some (resp, w))) ↦
                some (record s { limiter = some l'; world = w }, passed resp)
          ]
  ]

  unfoldable pub check_backends : List (Ref × Probe) → System → System
  check_backends probes s =
      with_site (Health.tick (backends s.world.pool) probes (s.current_interval, site s)) s

  unfoldable pub call_admin : Admin.Call → System → System × Answer
  call_admin c s = let (p, answer) = Admin.handle out.json c (server s) in (with_server p s, answer)

  -- From the loaded configuration on.
  unfoldable pub reload : Config → List String → List String → System → System
  reload cfg old_keys new_keys s =
      let (p, refusal) =
        apply out.os.parse (compute_diff s.current cfg old_keys new_keys) (running s) in
      elim refusal [
        | some _ ↦ with_running p s
        | none ↦ record (with_running p s) { current = cfg }
      ]

  -- A SIGHUP.
  unfoldable pub on_hangup : (String → Reading) → List String → List String → System → System
  on_hangup read old_keys new_keys s =
      if str_eq s.cfg_path "" then s else elim (load_file out.library out.shell read s.cfg_path) [
        | err _ ↦ s
        | ok cfg ↦ if length cfg.pool.backends == 0 then s else elim (Algo.new cfg.pool.algorithm) [
          | none ↦ s
          | some _ ↦ reload cfg old_keys new_keys s
        ]
      ]

  unfoldable pub step : Event → System → Option System
  step (request remote_addr now r) s = elim (serve remote_addr now r s) [
    | none ↦ none
    | some (s', _) ↦ some s'
  ]
  step (round probes) s = some (check_backends probes s)
  step (admin_call c) s = some (call_admin c s).0
  step (hangup read old_keys new_keys) s = some (on_hangup read old_keys new_keys s)
  step (cleanup now) s = some (clean now s)

  unfoldable pub run : List Event → System → Option System
  run [] s = some s
  run (e ∷ es) s = elim (step e s) [ none ↦ none | some s' ↦ run es s' ]
