-- ===== src/Main/Invariant.antt =====
-- cmd/golb/main.go: what holds of the program between two events.
use go_lb.Base.{
  ◌≤◌, Option-cases, inl, inr, some, ◌≡◌, ◌∙◌, some-injective, All-In, sym, subst, All, ℕ, ◌<◌,
  String, Option, List, arith,
}
use go_lb.Base.Int.{ℤ, pos, ◌<ℤ◌}
use go_lb.Backend.{Ref}
use go_lb.Pool.{Distinct, backend_urls}
use go_lb.Pool.Laws.{urls-same}
use go_lb.Config.{Config}
use go_lb.Config.Load.{Reading}
use go_lb.Health.{tick, prune, Probe, check_all}
use go_lb.Health.Invariant.{Valid, tick-Valid}
use go_lb.Admin
use go_lb.Admin.Invariant.{handle-Inv}
use go_lb.RateLimit
use go_lb.RateLimit.{RateLimiter}
use go_lb.RateLimit.Limiter
use go_lb.Reload.{compute_diff, apply}
use go_lb.Proxy.Breakers.{RegisteredIn}
use go_lb.Main.Start.{System}
use go_lb.Main.Counted.{apply-Valid, check_all-same, handle-Grown, apply-Grown, Counts, Fresh}
use go_lb.Reload.Apply.{apply-Inv}
use go_lb.Reload.{Diff}
use go_lb.RateLimit.Limiter.{evict-Inv}
use go_lb.Main.Hangup.{on_hangup-cases}
use go_lb.Main.Run.{
  Outside, site, server, running, with_running, check_backends, call_admin, reload, on_hangup,
  clean,
}

-- What a limiter needs, if there is one.
abbrev pub Limits : Option RateLimiter → Type 0
Limits o = (l : RateLimiter) → o ≡ some l → Limiter.Inv l

-- The backends of the pool are allocated and their URLs pairwise different, the connections are
-- counted as `n` says, none of what is not allocated, and the checker, its ticker, every circuit
-- breaker and the limiter are in order.
pub record Inv (n : Ref → ℤ) (s : System) : Type 0 where
  pub distinct : Distinct (backend_urls s.world.heap s.world.pool)
  pub allocated : All (λ b. b < s.allocated) s.world.pool
  pub counts : Counts n s.world.heap
  pub fresh : Fresh n s.allocated
  pub checker : Valid s.checker
  pub ticker : pos 0 <ℤ s.current_interval
  pub breakers : RegisteredIn s.world
  pub limits : Limits s.limiter

-- The same, with no backend given back.
abbrev pub Later : (Ref → ℤ) → System → System → Type 0
Later n s s' = (s.allocated ≤ s'.allocated) × Inv n s'

pub limited-Inv :
    (n : Ref → ℤ) (l : RateLimiter) (s : System)
    → Limiter.Inv l
    → Inv n s
    → Inv n (record s { limiter = some l })
limited-Inv n l s lv v = record {
  distinct = v.distinct;
  allocated = v.allocated;
  counts = v.counts;
  fresh = v.fresh;
  checker = v.checker;
  ticker = v.ticker;
  breakers = v.breakers;
  limits = λ l' e. subst Limiter.Inv (some-injective e) lv;
}

pub clean-Later : (n : Ref → ℤ) (now : ℕ) (s : System) → Inv n s → Later n s (clean now s)
unfolding clean
clean-Later n now s v = elim (Option-cases s.limiter) [
  | inl e ↦ rw (e, clean) (omega arith, v)
  | inr (l, e) ↦
      rw (e, clean)
        (omega arith, limited-Inv n (RateLimit.evict now l) s (evict-Inv now l (v.limits l e)) v)
]

module _ (out : Outside) (n : Ref → ℤ) where
  pub check_backends-Later :
      (probes : List (Ref × Probe)) (s : System) → Inv n s → Later n s (check_backends out probes s)
  unfolding check_backends tick prune
  check_backends-Later probes s v =
      let (checker, ticker) =
        tick-Valid s.world.pool probes s.current_interval (site s) v.checker in
      (
        omega arith,
        record {
          distinct =
              subst Distinct
                (sym (
                  urls-same s.world.heap (check_all probes (site s)).heap s.world.pool
                    (All-In _ s.world.pool (λ c _. (check_all-same probes (site s) c).1))))
                v.distinct;
          allocated = v.allocated;
          counts = λ c. (check_all-same probes (site s) c).0 ∙ v.counts c;
          fresh = v.fresh;
          checker = checker;
          ticker = ticker;
          breakers = v.breakers;
          limits = v.limits;
        },
      )

  pub call_admin-Later : (c : Admin.Call) (s : System) → Inv n s → Later n s (call_admin out c s).0
  unfolding call_admin
  call_admin-Later c s v =
      let kept =
        handle-Inv out.json c (server s)
          (record { distinct = v.distinct; allocated = v.allocated }) in
      let (le, counts) =
        handle-Grown n s.allocated v.fresh out.json c (server s) (omega arith, v.counts) in
      (
        le,
        record {
          distinct = kept.distinct;
          allocated = kept.allocated;
          counts = counts;
          fresh = λ b above. v.fresh b (omega arith);
          checker = v.checker;
          ticker = v.ticker;
          breakers = v.breakers;
          limits = v.limits;
        },
      )

  moved-Later :
      (cfg : Config) (d : Diff) (s : System)
      → Inv n s
      → Later n s (record (with_running (apply out.os.parse d (running s)).0 s) { current = cfg })
  moved-Later cfg d s v =
      let kept =
        (apply-Inv out.os.parse d (running s)
          (record { distinct = v.distinct; allocated = v.allocated })).1 in
      let (le, counts) =
        apply-Grown n s.allocated v.fresh out.os.parse d (running s) (omega arith, v.counts) in
      (
        le,
        record {
          distinct = kept.distinct;
          allocated = kept.allocated;
          counts = counts;
          fresh = λ b above. v.fresh b (omega arith);
          checker = apply-Valid out.os.parse d (running s) v.checker;
          ticker = v.ticker;
          breakers = v.breakers;
          limits = v.limits;
        },
      )

  reload-Later :
      (cfg : Config) (old_keys new_keys : List String) (s : System)
      → Inv n s
      → Later n s (reload out cfg old_keys new_keys s)
  unfolding reload
  reload-Later cfg old_keys new_keys s v =
      let d = compute_diff s.current cfg old_keys new_keys in
      elim (Option-cases (apply out.os.parse d (running s)).1) [
        | inl e ↦ subst (Later n s) (sym (ground (arith, e))) (moved-Later cfg d s v)
        | inr (e', e) ↦ subst (Later n s) (sym (ground (arith, e))) (moved-Later s.current d s v)
      ]

  -- Whatever the file says, a SIGHUP keeps the invariant.
  pub on_hangup-Later :
      (read : String → Reading) (old_keys new_keys : List String) (s : System)
      → Inv n s
      → Later n s (on_hangup out read old_keys new_keys s)
  on_hangup-Later read old_keys new_keys s v = elim (on_hangup-cases out read old_keys new_keys s) [
    | inl e ↦ subst (Later n s) (sym e) (omega arith, v)
    | inr (cfg, accepted, e) ↦ subst (Later n s) (sym e) (reload-Later cfg old_keys new_keys s v)
  ]
