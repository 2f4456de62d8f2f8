-- ===== src/Main/Launch.antt =====
-- cmd/golb/main.go: the program from its arguments on.
use go_lb.Base.{
  bind-ok, String, ◌≡◌, sym, ◌∙◌, subst, inl, inr, some, List, arith, Option-cases, ok,
}
use go_lb.Config.{Config}
use go_lb.Config.Valid.{Valid, load-Valid}
use go_lb.Config.Load.{Reading, load}
use go_lb.Main.{extract_config_flag}
use go_lb.Main.Run.{Outside, Event, run}
use go_lb.Main.Start.{launch, System, start}
use go_lb.Main.Counted.{idle}
use go_lb.Main.Invariant.{Inv}
use go_lb.Main.Served.{run-Inv}
use go_lb.Main.Ready.{start-Steps, start-Started}

module _ (out : Outside) where
  launch-Steps :
      (read : String → Reading) (args : List String) (s : System)
      → launch out.os out.library out.shell read args ≡ ok s
      → (path : String) × (rest : List String) × (cfg : Config) × (load out.library out.shell read
            path rest
          ≡ ok cfg)
        × (start out.os path cfg ≡ ok s)
  unfolding launch
  launch-Steps read args s e =
      let flag = extract_config_flag args in
      elim (Option-cases flag.error) [
        | inr (m, bad) ↦ absurd (ground (arith, bad, e))
        | inl good ↦
            let (cfg, loaded, more) =
              bind-ok (load out.library out.shell read flag.path flag.rest) (start out.os flag.path)
                (sym (ground (arith, good)) ∙ e) in
            (flag.path, flag.rest, cfg, loaded, more)
      ]

  pub launch-Inv :
      (read : String → Reading) (args : List String) (s : System)
      → launch out.os out.library out.shell read args ≡ ok s
      → Inv idle s
  launch-Inv read args s e =
      let (path, rest, cfg, loaded, more) = launch-Steps read args s e in
      (start-Started out.os path cfg s more).inv

  -- From arguments with which the program starts, its configuration is valid, and it comes through
  -- every sequence of requests, rounds of probes, admin calls, SIGHUPs and cleanups: there is no
  -- panic of its own, every request is answered, and afterwards the URLs of the pool are pairwise different, no
  -- connection is counted, and the checker, every circuit breaker and the limiter are in order.
  pub launch-run :
      (read : String → Reading) (args : List String) (es : List Event) (s : System)
      → launch out.os out.library out.shell read args ≡ ok s
      → Valid s.current × ((s' : System) × (run out es s ≡ some s') × Inv idle s')
  launch-run read args es s e =
      let (path, rest, cfg, loaded, more) = launch-Steps read args s e in
      let t = start-Steps out.os path cfg s more in
      (
        subst (λ x. Valid x.current) t.system
            (load-Valid out.library out.shell read path rest cfg loaded),
        run-Inv out idle es s (launch-Inv read args s e),
      )
