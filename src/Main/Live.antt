-- ===== src/Main/Live.antt =====
-- cmd/golb/main.go: the running program with requests that overlap. net/http runs the handler of
-- each in a goroutine of its own, the health checker each probe of a round, and the admin API, the
-- reload and the limiter's cleanup have theirs.
--
-- The state is a System with a thread for each request that the limiter let through, in the order of
-- their arrival. A thread that is answered stays.
pub mod Invariant
pub mod Fair
pub mod Launch
pub mod Answers
use go_lb.Base.{ℕ, String, Option, none, some, List, [], ◌∷◌, ◌++◌}
use go_lb.Backend.{Ref}
use go_lb.Config.Load.{Reading}
use go_lb.Admin
use go_lb.Health
use go_lb.Health.{Probe}
use go_lb.RateLimit
use go_lb.RateLimit.{RateLimiter, Readings, Outcome, passed, too_many_requests}
use go_lb.Proxy.{Request}
use go_lb.Proxy.Overlap.{Thread, arrived, take_turn}
use go_lb.Main.Start.{System}
use go_lb.Main.Run.{Outside, site, with_site, check_backends, call_admin, on_hangup, clean}

pub record Live : Type 0 where
  pub system : System
  pub threads : List Thread

-- What happens next: a request comes, the thread at a place moves, a probe of a round is counted, a
-- round is over, and the events that Main/Run has too.
pub data Moment : Type 0 where
  arrival : (remote_addr : String) (now : Readings) (r : Request) → Moment
  turn : (i : ℕ) → Moment
  probe : (b : Ref) (p : Probe) → Moment
  round_over : Moment
  admin_call : Admin.Call → Moment
  hangup : (read : String → Reading) (old_keys new_keys : List String) → Moment
  cleanup : (now : ℕ) → Moment

-- `CheckBackend` of one backend, from the response on.
unfoldable pub check_one : Ref → Probe → System → System
check_one b p s = with_site (s.current_interval, Health.check_backend b p (site s)) s

abbrev pub begun : Request → System → Live → Live
begun r s l = record { system = s; threads = l.threads ++ arrived r ∷ [] }

abbrev pub on_system : (System → System) → Live → Live
on_system f l = record l { system = f l.system }

-- After the limiter. `none` is a panic.
abbrev pub admitted : Live → Option (RateLimiter × Outcome Request) → Option Live
admitted l none = none
admitted l (some (lim, too_many_requests seconds)) =
    some (record l { system = record l.system { limiter = some lim } })
admitted l (some (lim, passed r)) = some (begun r (record l.system { limiter = some lim }) l)

module _ (out : Outside) where
  -- The limiter lets a request through, or answers it itself.
  unfoldable pub admit : String → Readings → Request → Live → Option Live
  admit remote_addr now r l = elim l.system.limiter [
    | none ↦ some (begun r l.system l)
    | some lim ↦
        admitted l (RateLimit.limit out.os.float out.split_host_port remote_addr now (λ _. r) lim)
  ]

  unfoldable pub move_one : ℕ → Live → Live
  move_one i l =
      let (w, ts) = take_turn out.net i l.system.world l.threads in
      record { system = record l.system { world = w }; threads = ts }

  unfoldable pub happen : Moment → Live → Option Live
  happen (arrival remote_addr now r) l = admit remote_addr now r l
  happen (turn i) l = some (move_one i l)
  happen (probe b p) l = some (on_system (check_one b p) l)
  happen round_over l = some (on_system (check_backends out []) l)
  happen (admin_call c) l = some (on_system (λ s. (call_admin out c s).0) l)
  happen (hangup read old_keys new_keys) l =
      some (on_system (on_hangup out read old_keys new_keys) l)
  happen (cleanup now) l = some (on_system (clean now) l)

  unfoldable pub live : List Moment → Live → Option Live
  live [] l = some l
  live (m ∷ ms) l = elim (happen m l) [ none ↦ none | some l' ↦ live ms l' ]
