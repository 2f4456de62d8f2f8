-- ===== src/Main/Live/Answers.antt =====
-- cmd/golb/main.go: what requests that overlap are answered.
use go_lb.Base.{
  some-injective, ℕ, ◌≡◌, sym, ◌∙◌, subst, inl, inr, some, List, [], ◌∷◌, arith, Option-cases,
  get_elem?, All, In-All, All-append, get_elem?-In,
}
use go_lb.Proxy.{Response}
use go_lb.Proxy.Overlap.{returning, at, arrived}
use go_lb.Proxy.Overlap.Answers.{Proper, Answers, take_turn-Answers}
use go_lb.Main.Start.{System}
use go_lb.Main.Run.{Outside}
use go_lb.Main.Live.{
  Live, Moment, arrival, turn, probe, round_over, admin_call, hangup, cleanup, move_one, happen,
  live,
}
use go_lb.Main.Live.Fair.{Joined, admit-threads}
use go_lb.Main.Live.Launch.{resting}

module _ (out : Outside) where
  abbrev Good : Live → Type 0
  Good l = All (Answers out.net) l.threads

  Joined-Good : (l l' : Live) → Joined l l' → Good l → Good l'
  Joined-Good l l' (inl same) ks = subst (All (Answers out.net)) (sym same) ks
  Joined-Good l l' (inr (r, more)) ks =
      subst (All (Answers out.net)) (sym more)
        (All-append _ l.threads (arrived r ∷ []) ks (record { stage = tt }, tt))

  happen-Good : (m : Moment) (l l' : Live) → happen out m l ≡ some l' → Good l → Good l'
  unfolding happen move_one
  happen-Good (arrival addr now r) l l' e ks =
      Joined-Good l l' (admit-threads out addr now r l e) ks
  happen-Good (turn i) l l' e ks =
      subst Good (some-injective e) (take_turn-Answers out.net i l.system.world l.threads ks)
  happen-Good (probe b p) l l' e ks = subst Good (some-injective e) ks
  happen-Good round_over l l' e ks = subst Good (some-injective e) ks
  happen-Good (admin_call c) l l' e ks = subst Good (some-injective e) ks
  happen-Good (hangup read old_keys new_keys) l l' e ks = subst Good (some-injective e) ks
  happen-Good (cleanup now) l l' e ks = subst Good (some-injective e) ks

  live-Good : (ms : List Moment) (l l' : Live) → live out ms l ≡ some l' → Good l → Good l'
  unfolding live
  live-Good [] l l' e ks = subst Good (some-injective e) ks
  live-Good (m ∷ ms) l l' e ks = elim (Option-cases (happen out m l)) [
    | inl none' ↦ absurd (ground (arith, none', e))
    | inr (l₁, some') ↦
        live-Good ms l₁ l' (sym (ground (arith, some')) ∙ e) (happen-Good m l l₁ some' ks)
  ]

  -- However requests, probes, admin calls, reloads and cleanups interleave, a request that has its
  -- answer was answered once: with 503 by the balancer, or with the statuses that a backend gave in
  -- some exchange; or with no status, and then a wait for a retry found the client gone.
  pub live-Proper :
      (ms : List Moment) (s : System) (l : Live) (i : ℕ) (resp : Response)
      → live out ms (resting s) ≡ some l
      → get_elem? l.threads i ≡ some (at (returning resp) [])
      → Proper out.net resp
  live-Proper ms s l i resp e at' =
      (In-All _ l.threads (live-Good ms (resting s) l e tt) (get_elem?-In l.threads i at')).stage
