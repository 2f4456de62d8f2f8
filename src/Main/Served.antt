-- ===== src/Main/Served.antt =====
-- cmd/golb/main.go: what holds between two events, when each of them runs to its end.
use go_lb.Base.{
  [], ◌∷◌, Bool-cases, ap, Option-cases, inl, inr, some, ◌≡◌, ◌∙◌, refl, some-injective, All-In,
  sym, subst, All, ◌<◌, String, List, arith,
}
use go_lb.Base.Int.{ℤ}
use go_lb.Backend.{Ref}
use go_lb.Pool.{Distinct, backend_urls}
use go_lb.Pool.Laws.{urls-same}
use go_lb.RateLimit.{Readings, Outcome, passed, too_many_requests}
use go_lb.Proxy.{World, Request, Response}
use go_lb.Proxy.Breakers.{RegisteredIn}
use go_lb.Main.Start.{System}
use go_lb.Proxy.Connections.{serve_http-Calmed}
use go_lb.Proxy.Induction.{serve_http-Kept}
use go_lb.Proxy.Breakers.{Kept-RegisteredIn, Kept-pool}
use go_lb.RateLimit.Limiter.{limit-Answered}
use go_lb.Main.Run.{
  request, round, admin_call, hangup, cleanup, handle_request, fuel, Outside, Event, serve,
  check_backends, call_admin, on_hangup, clean, step, run,
}
use go_lb.Main.Invariant.{
  Inv, limited-Inv, clean-Later, check_backends-Later, call_admin-Later, on_hangup-Later,
}

module _ (out : Outside) (n : Ref → ℤ) where
  handled-Inv :
      (r : Request) (s : System)
      → Inv n s
      → (a : Response × World) × (handle_request out r s tt ≡ some a)
        × Inv n (record s { world = a.1 })
  handled-Inv r s v =
      let (a, returned, calm) = serve_http-Calmed out.net fuel r s.world (omega arith) in
      let (a', returned', sound) =
        serve_http-Kept out.net RegisteredIn (Kept-RegisteredIn out.net) fuel r s.world
          (omega arith) v.breakers in
      let (a'', returned'', pool) =
        serve_http-Kept out.net _ (Kept-pool out.net s.world.pool) fuel r s.world (omega arith)
          refl in
      let sound' =
        subst (λ x. RegisteredIn x.1) (some-injective (sym returned' ∙ returned)) sound in
      let pool' =
        subst (λ x. x.1.pool ≡ s.world.pool) (some-injective (sym returned'' ∙ returned)) pool in
      (
        a,
        returned,
        record {
          distinct =
              subst (λ p. Distinct (backend_urls a.1.heap p)) (sym pool')
                (subst Distinct
                  (sym (
                    urls-same s.world.heap a.1.heap s.world.pool
                      (All-In _ s.world.pool (λ c _. ap (λ u. u.text) (calm c).url))))
                  v.distinct);
          allocated = subst (All (λ b. b < s.allocated)) (sym pool') v.allocated;
          counts = λ c. (calm c).active_conns ∙ v.counts c;
          fresh = v.fresh;
          checker = v.checker;
          ticker = v.ticker;
          breakers = sound';
          limits = v.limits;
        },
      )

  serve-Inv :
      (addr : String) (now : Readings) (r : Request) (s : System)
      → Inv n s
      → (a : System × Outcome Response) × (serve out addr now r s ≡ some a) × Inv n a.0
  unfolding serve
  serve-Inv addr now r s v =
      let (a, returned, kept) = handled-Inv r s v in
      elim (Option-cases s.limiter) [
        | inl e ↦ ((record s { world = a.1 }, passed a.0), ground (arith, e, returned), kept)
        | inr (l, e) ↦
            let (l', answer, answered, passes, refuses) =
              limit-Answered out.os.float out.split_host_port addr now (handle_request out r s) l
                (v.limits l e) in
            elim (Bool-cases answer) [
              | inl good ↦ (
                (record s { limiter = some l'; world = a.1 }, passed a.0),
                ground (arith, e, returned, passes good),
                limited-Inv n l' (record s { world = a.1 }) answered.inv kept,
              )
              | inr bad ↦
                  let (seconds, too_many) = refuses bad in
                  (
                    (record s { limiter = some l' }, too_many_requests seconds),
                    ground (arith, e, too_many),
                    limited-Inv n l' s answered.inv v,
                  )
            ]
      ]

module _ (out : Outside) (n : Ref → ℤ) where
  step-Inv :
      (e : Event) (s : System) → Inv n s → (s' : System) × (step out e s ≡ some s') × Inv n s'
  unfolding step
  step-Inv (request addr now r) s v =
      let (a, returned, kept) = serve-Inv out n addr now r s v in
      (a.0, ground (arith, returned), kept)
  step-Inv (round probes) s v =
      (check_backends out probes s, refl, (check_backends-Later out n probes s v).1)
  step-Inv (admin_call c) s v = ((call_admin out c s).0, refl, (call_admin-Later out n c s v).1)
  step-Inv (hangup read old_keys new_keys) s v = (
    on_hangup out read old_keys new_keys s,
    refl,
    (on_hangup-Later out n read old_keys new_keys s v).1,
  )
  step-Inv (cleanup now) s v = (clean now s, refl, (clean-Later n now s v).1)

  -- From a state that satisfies the invariant the program comes through every sequence of requests,
  -- rounds of probes, admin calls, SIGHUPs and cleanups, without a panic and with all requests
  -- answered, and the invariant holds again,
  -- with the connections that were open at the start.
  pub run-Inv :
      (es : List Event) (s : System) → Inv n s → (s' : System) × (run out es s ≡ some s') × Inv n s'
  unfolding run
  run-Inv [] s v = (s, refl, v)
  run-Inv (e ∷ es) s v =
      let (s', stepped, v') = step-Inv e s v in
      let (s'', ran, v'') = run-Inv es s' v' in (s'', ground (arith, stepped, ran), v'')
