-- ===== src/Examples/Systems.antt =====
-- cmd/golb: a program that starts from the example file, and a SIGHUP.
use go_lb.Base.{
  ◌++◌, ok-injective, sym, subst, ap, ◌∙◌, ◌>>=◌, ◌⊎◌, String, ◌≡◌, refl, ◌≢◌, true, false, none,
  some, List, [], ◌∷◌, arith, All, empty_map, ok,
}
use go_lb.Base.Int.{pos}
use go_lb.Backend.{Url}
use go_lb.Config.Valid
use go_lb.Config.Load.{load_file}
use go_lb.Algo
use go_lb.Algo.{round_robin}
use go_lb.Metrics.{init}
use go_lb.Health.{responded}
use go_lb.Admin
use go_lb.RateLimit
use go_lb.Pool.{add_backend, has_url}
use go_lb.Reload.{by_url}
use go_lb.Reload.Diffs.{configured}
use go_lb.Reload.Sync.{Keys, Plain}
use go_lb.Main.{separate, extract_config_flag, extract_from}
use go_lb.Proxy.{new_load_balancer}
use go_lb.Main.Start.{
  proxy_opts, Platform, System, started, start, launch, enlist, no_members, register, new_algorithm,
  check_tls, check_sessions, start_metrics, start_limiter, mark_up,
}
use go_lb.Main.Run.{Outside, Event, request, round, admin_call, hangup, cleanup, run, on_hangup}
use go_lb.Main.Hangup.{Reloaded, on_hangup-Reloaded}
use go_lb.Main.Counted.{idle}
use go_lb.Main.Invariant.{Inv}
use go_lb.Main.Ready.{Started, start-Started}
use go_lb.Main.Listeners.{listeners}
use go_lb.Main.Launch.{launch-run}
use go_lb.Main.Sync.{InSync, start-InSync, on_hangup-InSync}
use go_lb.Main.Shutdown.{
  Process, Hangup, sighup, sigterm, sigint, on_signals, on_signals-stop, started_with, reloads,
}
use go_lb.Main.Listeners.{Listener, main_srv}
use mathlib.Core.List.{Perm}
use go_lb.Examples.Configs.{library, shell, read, filed, load_filed}
use go_lb.Examples.Limits.{whole, readings}
use go_lb.Examples.Requests.{env, post}

abbrev os : Platform
os = record {
  parse = λ text. ok (record { scheme = "http"; host = "a"; text = text });
  accessible = λ path. true;
  trim_space = λ s. s;
  float = whole;
  registers = true;
  now = 1;
}

abbrev pub outside : Outside
outside = record {
  os = os;
  net = env;
  json = record {
    decode = λ body. ok (record { url = body; weight = pos 1 });
    parse = os.parse;
    unescape = λ s. ok s;
  };
  split_host_port = λ s. none;
  library = library;
  shell = shell;
}

filed-Plain : (url : String) → Plain os.parse (filed url)
filed-Plain url = (λ u e. ground (arith, ok-injective e), tt)

abbrev url_a : Url
url_a = record { scheme = "http"; host = "a"; text = "http://a" }

-- The system that starts from the file.
abbrev pub system : System
system =
    started "golb.yaml" (filed "http://a") (round_robin 0) (enlist url_a (pos 1) no_members)
      (mark_up (0 ∷ []) (enlist url_a (pos 1) no_members).heap
        (record { initialized = true; enabled = true; updates = [] }))
      (some (record {
        global = none;
        per_ip = empty_map;
        rate = 0x408F400000000000;
        burst = pos 2;
        per_ip_on = true;
        done = false;
      }))

starts : start os "golb.yaml" (filed "http://a") ≡ ok system
unfolding start proxy_opts new_load_balancer register new_algorithm check_tls check_sessions
    start_metrics start_limiter mark_up enlist add_backend has_url Algo.new init RateLimit.new
starts = refl

start-Started_example : Started os (filed "http://a") system
start-Started_example = start-Started os "golb.yaml" (filed "http://a") system starts

start-InSync_example : InSync system
start-InSync_example =
    start-InSync os "golb.yaml" (filed "http://a") system (filed-Plain "http://a") (tt, tt) starts

-- The arguments, without a flag that is left after the path is taken out.
abbrev pub arguments : List String
arguments = "--config" ∷ "golb.yaml" ∷ []

pub launches : launch os library shell (read "http://a") arguments ≡ ok system
unfolding launch extract_config_flag extract_from separate load_file
launches = ap (λ r. r >>= start os "golb.yaml") (load_filed "http://a") ∙ starts

abbrev events : List Event
events =
    request "h:80" readings post
    ∷ round ((0, responded 500) ∷ [])
    ∷ admin_call (Admin.add "http://b")
    ∷ hangup (read "http://c") ("http://a" ∷ []) ("http://c" ∷ [])
    ∷ cleanup 9
    ∷ []

launch-run_example :
    Valid.Valid (filed "http://a")
    × ((s : System) × (run outside events system ≡ some s) × Inv idle s)
launch-run_example = launch-run outside (read "http://a") arguments events system launches

filed-Keys : (url : String) → Keys (url ∷ []) (configured (filed url))
unfolding by_url
filed-Keys url v = ground arith

filed-All : All (λ u. configured (filed "http://a") u ≢ none) ("http://a" ∷ [])
unfolding by_url
filed-All = (λ e. absurd (ground (arith, e)), tt)

-- The system after a SIGHUP for a file with another backend.
abbrev moved : System
moved = on_hangup outside (read "http://c") ("http://a" ∷ []) ("http://c" ∷ []) system

on_hangup-Reloaded_example : (moved ≡ system) ⊎ Reloaded outside (read "http://c") system moved
on_hangup-Reloaded_example =
    on_hangup-Reloaded outside (read "http://c") ("http://a" ∷ []) ("http://c" ∷ []) system

on_hangup-InSync_example : InSync moved
on_hangup-InSync_example =
    on_hangup-InSync outside (read "http://c") ("http://a" ∷ []) ("http://c" ∷ []) system
      (filed-Keys "http://a")
      (λ cfg e.
        subst (λ c. Plain os.parse c × Keys ("http://c" ∷ []) (configured c))
          (ok-injective (sym (load_filed "http://c") ∙ e))
          (filed-Plain "http://c", filed-Keys "http://c"))
      (start-Started os "golb.yaml" (filed "http://a") system starts).inv
      (start-InSync os "golb.yaml" (filed "http://a") system (filed-Plain "http://a") (tt, tt)
        starts)

-- A SIGHUP, then a SIGTERM, and a SIGINT that comes too late.
abbrev new_file : Hangup
new_file = record { read = read "http://c"; old_keys = "http://a" ∷ []; new_keys = "http://c" ∷ [] }

abbrev ended : Process
ended =
    on_signals outside (filed "http://a") (sighup new_file ∷ sigterm ∷ sigint ∷ [])
      (started_with system)

on_signals-stop_example :
    (ended.system ≡ reloads outside (new_file ∷ []) system)
    × (ended.cancelled ≡ true)
    × (ended.waiting ≡ false)
    × Perm ended.shut (listeners (filed "http://a"))
    × ((before : List Listener) × (ended.shut ≡ before ++ main_srv (pos 4040) ∷ []))
on_signals-stop_example =
    on_signals-stop outside (filed "http://a") (new_file ∷ []) sigterm (sigint ∷ []) system tt
