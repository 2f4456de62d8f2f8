-- ===== src/Main/Live/Launch.antt =====
-- cmd/golb/main.go: the program from its arguments on, with requests that overlap.
use go_lb.Base.{
  some-injective, ℕ, ◌≤◌, String, ◌≡◌, refl, sym, ap, ◌∙◌, subst, true, false, none, some, List, [],
  ◌∷◌, arith, All, In, ok,
}
use go_lb.Base.Int.{ℤ, pos, ltb_ℤ}
use go_lb.Backend.{Ref, is_alive, active_conns}
use go_lb.Config.Load.{Reading}
use go_lb.Algo
use go_lb.Algo.{least_connections}
use go_lb.Algo.Best.{First, First-unbeaten, First-In}
use go_lb.Algo.LeastConnections.Least.{fewer, next-First-fewer}
use go_lb.Proxy.{Request, choose, pinned}
use go_lb.Proxy.Overlap.{Thread, IsDone}
use go_lb.Proxy.Overlap.Effects.{in_flight, open_at}
use go_lb.Main.Start.{launch, System}
use go_lb.Main.Run.{Outside}
use go_lb.Main.Launch.{launch-Inv}
use go_lb.Main.Live.{Live, Moment, live}
use go_lb.Main.Live.Invariant.{Sound, live-Sound}

-- The program when no request has come.
abbrev pub resting : System → Live
resting s = record { system = s; threads = [] }

in_flight-done : (c : Ref) (ts : List Thread) → All IsDone ts → in_flight ts c ≡ 0
in_flight-done c [] d = refl
in_flight-done c (t ∷ ts) ((resp, e), d) =
    omega (arith, ap (λ u. open_at c u.frames) e, in_flight-done c ts d)

no_fewer : {a b : ℤ} {x y : ℕ} → a ≡ pos x → b ≡ pos y → ltb_ℤ a b ≡ false → y ≤ x
no_fewer e f t = ground (arith, e, f)

module _ (out : Outside) where
  -- From arguments with which the program starts it comes through every sequence of arrivals, moves
  -- of requests that are being handled, results of probes, admin calls, SIGHUPs and cleanups without
  -- a panic of its own. At each moment the URLs of the pool are pairwise different, every backend, one that has
  -- left the pool included, counts as many active connections as frames of unanswered requests hold,
  -- and the checker, every circuit breaker and the limiter are in order.
  pub launch-live :
      (read : String → Reading) (args : List String) (ms : List Moment) (s : System)
      → launch out.os out.library out.shell read args ≡ ok s
      → (l : Live) × (live out ms (resting s) ≡ some l) × Sound l
  launch-live read args ms s e =
      live-Sound out ms (resting s) (record { system = launch-Inv out read args s e; known = tt })

  -- When the requests that have come are all answered, no backend counts an active connection, in
  -- whatever order their moves and everything else happened.
  pub live-rest :
      (read : String → Reading) (args : List String) (ms : List Moment) (s : System) (l : Live)
      → launch out.os out.library out.shell read args ≡ ok s
      → live out ms (resting s) ≡ some l
      → All IsDone l.threads
      → (c : Ref) → (l.system.world.heap c).active_conns ≡ pos 0
  live-rest read args ms s l e lived done c =
      let (l', lived', v) = launch-live read args ms s e in
      let v' = subst Sound (some-injective (sym lived' ∙ lived)) v in
      v'.system.counts c ∙ ap pos (in_flight-done c l.threads done)

  -- While requests overlap, the least-connections algorithm sends a request without a session to a
  -- backend that is one of those that it is given and is alive, and no live one of them has fewer
  -- requests in flight.
  pub choose-least :
      (l : Live) (r : Request) (bs : List Ref) (peer : Ref)
      → Sound l
      → l.system.world.algo ≡ least_connections
      → pinned out.net r l.system.world bs ≡ none
      → (choose out.net r l.system.world bs).0 ≡ some peer
      → In peer bs
        × (is_alive l.system.world.heap peer ≡ true)
        × ((b : Ref)
            → In b bs
            → is_alive l.system.world.heap b ≡ true
            → in_flight l.threads peer ≤ in_flight l.threads b)
  unfolding choose Algo.next active_conns
  choose-least l r bs peer v least free e =
      let h = l.system.world.heap in
      let found : First (is_alive h) (fewer h) bs (some peer) =
        subst (First (is_alive h) (fewer h) bs) (ground (arith, least, free, e))
          (next-First-fewer h bs) in
      let (member, up) = First-In (is_alive h) (fewer h) bs found in
      (
        member,
        up,
        λ b m on. no_fewer (v.system.counts b) (v.system.counts peer) (
            First-unbeaten (is_alive h) (fewer h) (λ x y p. ground arith) (λ x. ground arith) bs
              found b m on),
      )
