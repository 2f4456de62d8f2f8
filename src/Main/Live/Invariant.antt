-- ===== src/Main/Live/Invariant.antt =====
-- cmd/golb/main.go: what holds at every moment of the running program, requests in the middle of
-- their handling included.
use go_lb.Base.{
  ℕ, ◌<◌, String, ◌≡◌, refl, sym, ap, ◌∙◌, subst, fun_ext, inl, inr, some, List, [], ◌∷◌, ◌++◌,
  arith, Bool-cases, Option-cases, All, All-In, All-append, All-map,
}
use go_lb.Base.Int.{ℤ, pos, pos_part, neg_part, ◌+ℤ◌, int_laws}
use go_lb.Backend.{Ref}
use go_lb.Pool.{Distinct, backend_urls}
use go_lb.Pool.Laws.{urls-same}
use go_lb.Health.{Probe, check_all, check_backend}
use go_lb.Health.Invariant.{check_all-Valid}
use go_lb.RateLimit.{Readings}
use go_lb.RateLimit.Limiter.{limit-Answered}
use go_lb.Proxy.{Request}
use go_lb.Proxy.Overlap.{Thread, arrived, take_turn}
use go_lb.Proxy.Overlap.Effects.{in_flight}
use go_lb.Proxy.Overlap.Known.{Known, Known-le}
use go_lb.Proxy.Overlap.Turns.{take_turn-Turned, take_turn-Known, in_flight-fresh, in_flight-append}
use go_lb.Main.Start.{System}
use go_lb.Main.Run.{Outside, site, check_backends, call_admin, on_hangup, clean}
use go_lb.Main.Counted.{check_all-same}
use go_lb.Main.Invariant.{
  Inv, Later, limited-Inv, clean-Later, check_backends-Later, call_admin-Later, on_hangup-Later,
}
use go_lb.Main.Live.{
  Live, Moment, arrival, turn, probe, round_over, admin_call, hangup, cleanup, check_one, begun,
  on_system, admit, move_one, happen, live,
}

abbrev pub held : List Thread → Ref → ℤ
held ts c = pos (in_flight ts c)

-- The parts are in order, with the connections that the frames of the threads hold, and the threads
-- hold allocated backends.
pub record Sound (l : Live) : Type 0 where
  pub system : Inv (held l.threads) l.system
  pub known : All (Known l.system.allocated) l.threads

check_one-Later :
    (n : Ref → ℤ) (b : Ref) (p : Probe) (s : System) → Inv n s → Later n s (check_one b p s)
unfolding check_one check_all
check_one-Later n b p s v =
    let checker = check_all-Valid ((b, p) ∷ []) (site s) v.checker in
    let same = check_all-same ((b, p) ∷ []) (site s) in
    (
      omega arith,
      record {
        distinct =
            subst Distinct
              (sym (
                urls-same s.world.heap (check_backend b p (site s)).heap s.world.pool
                  (All-In _ s.world.pool (λ c _. (same c).1))))
              v.distinct;
        allocated = v.allocated;
        counts = λ c. (same c).0 ∙ v.counts c;
        fresh = v.fresh;
        checker = checker;
        ticker = v.ticker;
        breakers = v.breakers;
        limits = v.limits;
      },
    )

on_system-Sound :
    (f : System → System) (l : Live)
    → ((s : System) → Inv (held l.threads) s → Later (held l.threads) s (f s))
    → Sound l
    → Sound (on_system f l)
on_system-Sound f l later v =
    let (le, inv) = later l.system v.system in
    record { system = inv; known = All-map _ _ (Known-le le) l.threads v.known }

begun-held : (r : Request) (ts : List Thread) → held (ts ++ arrived r ∷ []) ≡ held ts
begun-held r ts = fun_ext (λ c. ap pos (in_flight-append c ts (arrived r ∷ []) ∙ omega arith))

begun-Sound :
    (r : Request) (s : System) (l : Live)
    → Inv (held l.threads) s
    → s.allocated ≡ l.system.allocated
    → Sound l
    → Sound (begun r s l)
begun-Sound r s l inv e v = record {
  system = subst (λ n. Inv n s) (sym (begun-held r l.threads)) inv;
  known =
      subst (λ a. All (Known a) (l.threads ++ arrived r ∷ [])) (sym e)
        (All-append _ l.threads (arrived r ∷ []) v.known (record { stage = tt; frames = tt }, tt));
}

recounted : (a b : ℤ) (x y : ℕ) → a +ℤ pos x ≡ b +ℤ pos y → b ≡ pos x → a ≡ pos y
recounted a b x y e f = omega (int_laws, ap pos_part e, ap neg_part e, ap pos_part f, ap neg_part f)

module _ (out : Outside) where
  move_one-Sound : (i : ℕ) (l : Live) → Sound l → Sound (move_one out i l)
  unfolding move_one
  move_one-Sound i l v =
      let w = l.system.world in
      let a = take_turn out.net i w l.threads in
      let e = take_turn-Turned out.net i w l.threads in
      let known =
        take_turn-Known out.net l.system.allocated i w l.threads v.system.allocated v.known in
      record {
        system = record {
          distinct =
              subst (λ p. Distinct (backend_urls a.0.heap p)) (sym e.pool)
                (subst Distinct
                  (sym (urls-same w.heap a.0.heap w.pool (All-In _ w.pool (λ c _. e.urls c))))
                  v.system.distinct);
          allocated = subst (All (λ b. b < l.system.allocated)) (sym e.pool) v.system.allocated;
          counts = λ c.
              recounted _ _ (in_flight l.threads c) (in_flight a.1 c) (e.conns c)
                (v.system.counts c);
          fresh = λ c above. ap pos (in_flight-fresh c a.1 above known);
          checker = v.system.checker;
          ticker = v.system.ticker;
          breakers = e.breakers v.system.breakers;
          limits = v.system.limits;
        };
        known = known;
      }

  admit-Sound :
      (addr : String) (now : Readings) (r : Request) (l : Live)
      → Sound l
      → (l' : Live) × (admit out addr now r l ≡ some l') × Sound l'
  unfolding admit
  admit-Sound addr now r l v = elim (Option-cases l.system.limiter) [
    | inl e ↦ (begun r l.system l, ground (arith, e), begun-Sound r l.system l v.system refl v)
    | inr (lim, e) ↦
        let (lim', answer, answered, passes, refuses) =
          limit-Answered out.os.float out.split_host_port addr now (λ _. r) lim
            (v.system.limits lim e) in
        let s = record l.system { limiter = some lim' } in
        let inv = limited-Inv (held l.threads) lim' l.system answered.inv v.system in
        elim (Bool-cases answer) [
          | inl good ↦ (begun r s l, ground (arith, e, passes good), begun-Sound r s l inv refl v)
          | inr bad ↦
              let (seconds, too_many) = refuses bad in
              (
                record l { system = s },
                ground (arith, e, too_many),
                record { system = inv; known = v.known },
              )
        ]
  ]

  happen-Sound :
      (m : Moment) (l : Live) → Sound l → (l' : Live) × (happen out m l ≡ some l') × Sound l'
  unfolding happen
  happen-Sound (arrival addr now r) l v = admit-Sound addr now r l v
  happen-Sound (turn i) l v = (move_one out i l, refl, move_one-Sound i l v)
  happen-Sound (probe b p) l v =
      (on_system (check_one b p) l, refl, on_system-Sound _ l (check_one-Later _ b p) v)
  happen-Sound round_over l v = (
    on_system (check_backends out []) l,
    refl,
    on_system-Sound _ l (check_backends-Later out _ []) v,
  )
  happen-Sound (admin_call c) l v = (
    on_system (λ s. (call_admin out c s).0) l,
    refl,
    on_system-Sound _ l (call_admin-Later out _ c) v,
  )
  happen-Sound (hangup read old_keys new_keys) l v = (
    on_system (on_hangup out read old_keys new_keys) l,
    refl,
    on_system-Sound _ l (on_hangup-Later out _ read old_keys new_keys) v,
  )
  happen-Sound (cleanup now) l v =
      (on_system (clean now) l, refl, on_system-Sound _ l (clean-Later _ now) v)

  pub live-Sound :
      (ms : List Moment) (l : Live) → Sound l → (l' : Live) × (live out ms l ≡ some l') × Sound l'
  unfolding live
  live-Sound [] l v = (l, refl, v)
  live-Sound (m ∷ ms) l v =
      let (l', happened, v') = happen-Sound m l v in
      let (l'', lived, v'') = live-Sound ms l' v' in (l'', ground (arith, happened, lived), v'')
