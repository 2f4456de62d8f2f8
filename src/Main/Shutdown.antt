-- ===== src/Main/Shutdown.antt =====
-- cmd/golb/main.go: the goroutine that reads the signals, and the shutdown of the servers. What
-- `Shutdown` does with a server is net/http's: it appears as the list of the servers for which it
-- was called. Which signals reach the channel `quit` is up to os/signal: the channel has one place,
-- and a signal that comes while another waits there, as during a reload, is dropped.
use mathlib.Core.List.{Perm, perm_middle, perm_append_comm, append-nil}
use mathlib.Core.List.Perm
use go_lb.Base.{
  String, ◌≡◌, refl, sym, ap, ◌∙◌, subst, Bool, true, false, List, [], ◌∷◌, ◌++◌, map, arith,
  if◌then◌else◌,
}
use go_lb.Config.{Config}
use go_lb.Config.Load.{Reading}
use go_lb.Main.Start.{System}
use go_lb.Main.Run.{Outside, on_hangup}
use go_lb.Main.Listeners.{Listener, main_srv, listeners, admin_server, metrics_server}

-- How the file reads at a SIGHUP, and the orders in which Go goes through the keys of the two maps.
pub record Hangup : Type 0 where
  pub read : String → Reading
  pub old_keys : List String
  pub new_keys : List String

pub data Signal : Type 0 where
  sighup : Hangup → Signal
  sigint : Signal
  sigterm : Signal

-- `cancelled` says that `cancel` was called, which ends the health checker, and `waiting` that the
-- loop still reads from `quit`.
pub record Process : Type 0 where
  pub system : System
  pub waiting : Bool
  pub cancelled : Bool
  pub shut : List Listener

abbrev pub started_with : System → Process
started_with s = record { system = s; waiting = true; cancelled = false; shut = [] }

-- After the loop. `cfg` is the configuration that the program started with.
unfoldable pub shut_down : Config → Process → Process
shut_down cfg p = record p {
  waiting = false;
  cancelled = true;
  shut = p.shut ++ metrics_server cfg ++ admin_server cfg ++ main_srv cfg.server.port ∷ [];
}

-- The reloads of some SIGHUPs.
abbrev pub reloads : Outside → List Hangup → System → System
reloads out [] s = s
reloads out (h ∷ hs) s = reloads out hs (on_hangup out h.read h.old_keys h.new_keys s)

module _ (out : Outside) (cfg : Config) where
  -- One round of the loop.
  unfoldable pub on_signal : Signal → Process → Process
  on_signal (sighup h) p = record p { system = on_hangup out h.read h.old_keys h.new_keys p.system }
  on_signal sigint p = shut_down cfg p
  on_signal sigterm p = shut_down cfg p

  -- Over the signals that `quit` delivers, in their order. One that comes after the loop has ended
  -- stays in the channel.
  unfoldable pub on_signals : List Signal → Process → Process
  unfolding on_signal
  on_signals [] p = p
  on_signals (s ∷ ss) p = on_signals ss (if p.waiting then on_signal s p else p)

  ignored : (ss : List Signal) (p : Process) → p.waiting ≡ false → on_signals ss p ≡ p
  unfolding on_signals
  ignored [] p e = refl
  ignored (s ∷ ss) p e =
      let left : (if p.waiting then on_signal s p else p) ≡ p = ground (arith, e) in
      ap (on_signals ss) left ∙ ignored ss p e

  hangups :
      (hs : List Hangup) (rest : List Signal) (p : Process)
      → p.waiting ≡ true
      → on_signals (map sighup hs ++ rest) p
        ≡ on_signals rest (record p { system = reloads out hs p.system })
  unfolding on_signals
  hangups [] rest p e = refl
  hangups (h ∷ hs) rest p e =
      let p' = on_signal (sighup h) p in
      let taken : (if p.waiting then p' else p) ≡ p' = ground (arith, e) in
      ap (on_signals (map sighup hs ++ rest)) taken ∙ hangups hs rest p' e

  abbrev pub IsStop : Signal → Type 0
  IsStop (sighup _) = ⊥
  IsStop _ = Unit

  stopped :
      (stop : Signal) (rest : List Signal) (p : Process)
      → IsStop stop
      → p.waiting ≡ true
      → on_signals (stop ∷ rest) p ≡ shut_down cfg p
  unfolding on_signals shut_down
  stopped (sighup h) rest p is e = absurd is
  stopped sigint rest p is e =
      let taken : (if p.waiting then shut_down cfg p else p) ≡ shut_down cfg p =
        ground (arith, e) in
      ap (on_signals rest) taken ∙ ignored rest (shut_down cfg p) refl
  stopped sigterm rest p is e =
      let taken : (if p.waiting then shut_down cfg p else p) ≡ shut_down cfg p =
        ground (arith, e) in
      ap (on_signals rest) taken ∙ ignored rest (shut_down cfg p) refl

  -- The servers in the order of their shutdown.
  order-perm :
      Perm (metrics_server cfg ++ admin_server cfg ++ main_srv cfg.server.port ∷ []) (listeners cfg)
  unfolding listeners
  order-perm =
      let admin = admin_server cfg in
      let metrics = metrics_server cfg in
      Perm.trans (perm_middle (metrics ++ admin) []) (
        Perm.cons' refl (
          subst (λ ls. Perm ls (admin ++ metrics)) (sym (append-nil (metrics ++ admin)))
            (perm_append_comm metrics admin)))

  stop_lem :
      (hs : List Hangup) (stop : Signal) (rest : List Signal) (s : System)
      → IsStop stop
      → on_signals (map sighup hs ++ stop ∷ rest) (started_with s)
        ≡ shut_down cfg (started_with (reloads out hs s))
  stop_lem hs stop rest s is =
      hangups hs (stop ∷ rest) (started_with s) refl
      ∙ stopped stop rest (started_with (reloads out hs s)) is refl

  -- Of the signals that the loop receives, the SIGHUPs before the first SIGINT or SIGTERM are handled
  -- in their order. That one ends the loop: the health checker is cancelled and each server that was started is shut down once, that of
  -- the balancer last. No later signal does anything.
  pub on_signals-stop :
      (hs : List Hangup) (stop : Signal) (rest : List Signal) (s : System)
      → IsStop stop
      → let p = on_signals (map sighup hs ++ stop ∷ rest) (started_with s) in
        (p.system ≡ reloads out hs s)
        × (p.cancelled ≡ true)
        × (p.waiting ≡ false)
        × Perm p.shut (listeners cfg)
        × ((before : List Listener) × (p.shut ≡ before ++ main_srv cfg.server.port ∷ []))
  unfolding shut_down
  on_signals-stop hs stop rest s is =
      subst Stopped (sym (stop_lem hs stop rest s is))
        (refl, refl, refl, order-perm, (metrics_server cfg ++ admin_server cfg, refl))
    where
      Stopped : Process → Type 0
      Stopped p =
          (p.system ≡ reloads out hs s)
          × (p.cancelled ≡ true)
          × (p.waiting ≡ false)
          × Perm p.shut (listeners cfg)
          × ((before : List Listener) × (p.shut ≡ before ++ main_srv cfg.server.port ∷ []))
