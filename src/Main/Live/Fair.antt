-- ===== src/Main/Live/Fair.antt =====
-- cmd/golb/main.go: in a run in which every thread gets its turn again and again, every request that
-- is let through is answered.
use go_lb.Base.{
  some-injective, ℕ, zero, suc, ◌+◌, String, ◌≡◌, refl, sym, ap, ◌∙◌, ◌≢◌, ◌⊎◌, inl, inr, Option,
  none, some, List, [], ◌∷◌, ◌++◌, arith, ℕ_discrete, Option-cases, get_elem?,
}
use go_lb.Proxy.{Env, World, Request, Response}
use go_lb.RateLimit
use go_lb.RateLimit.{RateLimiter, passed, too_many_requests, Readings, Outcome}
use go_lb.Proxy.Overlap.{returning, Thread, at, arrived, move, take_turn}
use go_lb.Proxy.Overlap.Ends.{Finishes, stops, goes_on, request-Finishes}
use go_lb.Main.Run.{Outside}
use go_lb.Main.Live.{
  begun, admitted, Live, Moment, arrival, turn, probe, round_over, admin_call, hangup, cleanup,
  admit, move_one, happen,
}

take_turn_self :
    (env : Env) (i : ℕ) (w : World) (ts : List Thread) {t : Thread}
    → get_elem? ts i ≡ some t
    → get_elem? (take_turn env i w ts).1 i ≡ some (move env t.stage t.frames w).1
unfolding take_turn
take_turn_self env i w [] e = cc
take_turn_self env zero w (u ∷ ts) e =
    ap (λ v. some (move env v.stage v.frames w).1) (some-injective e)
take_turn_self env (suc i) w (u ∷ ts) e = take_turn_self env i w ts e

take_turn_other :
    (env : Env) (j i : ℕ) (w : World) (ts : List Thread)
    → j ≢ i
    → get_elem? (take_turn env j w ts).1 i ≡ get_elem? ts i
unfolding take_turn
take_turn_other env j i w [] d = refl
take_turn_other env zero zero w (u ∷ ts) d = absurd (d refl)
take_turn_other env zero (suc i) w (u ∷ ts) d = refl
take_turn_other env (suc j) zero w (u ∷ ts) d = refl
take_turn_other env (suc j) (suc i) w (u ∷ ts) d = take_turn_other env j i w ts (λ e. d (ap suc e))

get_elem?-append :
    (ts us : List Thread) (i : ℕ) {t : Thread}
    → get_elem? ts i ≡ some t
    → get_elem? (ts ++ us) i ≡ some t
get_elem?-append [] us i e = cc
get_elem?-append (x ∷ ts) us zero e = e
get_elem?-append (x ∷ ts) us (suc i) e = get_elem?-append ts us i e

-- The threads are those that were there, and one more if the request is let through.
abbrev pub Joined : Live → Live → Type 0
Joined l l' =
    (l'.threads ≡ l.threads) ⊎ ((r : Request) × (l'.threads ≡ l.threads ++ arrived r ∷ []))

admitted-threads :
    (l : Live) (o : Option (RateLimiter × Outcome Request)) {l' : Live}
    → admitted l o ≡ some l'
    → Joined l l'
admitted-threads l none e = cc
admitted-threads l (some (lim, too_many_requests seconds)) e =
    inl (ap (λ x. x.threads) (some-injective (sym e)))
admitted-threads l (some (lim, passed r)) e = inr (r, ap (λ x. x.threads) (some-injective (sym e)))

module _ (out : Outside) where
  pub admit-threads :
      (addr : String) (now : Readings) (r : Request) (l : Live) {l' : Live}
      → admit out addr now r l ≡ some l'
      → Joined l l'
  unfolding admit
  admit-threads addr now r l e = elim (Option-cases l.system.limiter) [
    | inl off ↦
        let came : admit out addr now r l ≡ some (begun r l.system l) = ground (arith, off) in
        inr (r, ap (λ x. x.threads) (some-injective (sym e ∙ came)))
    | inr (lim, on) ↦
        admitted-threads l (RateLimit.limit out.os.float out.split_host_port addr now (λ _. r) lim)
          (sym (ground (arith, on)) ∙ e)
  ]

  -- A thread that does not get the turn stays where it is.
  waits :
      (m : Moment) (i : ℕ) (l l' : Live) {t : Thread}
      → m ≢ turn i
      → happen out m l ≡ some l'
      → get_elem? l.threads i ≡ some t
      → get_elem? l'.threads i ≡ some t
  unfolding happen move_one
  waits (arrival addr now r) i l l' d e at = elim (admit-threads addr now r l e) [
    | inl same ↦ ap (λ ts. get_elem? ts i) same ∙ at
    | inr (r', more) ↦
        ap (λ ts. get_elem? ts i) more ∙ get_elem?-append l.threads (arrived r' ∷ []) i at
  ]
  waits (turn j) i l l' d e at =
      ap (λ x. get_elem? x.threads i) (sym (some-injective e))
      ∙ (take_turn_other out.net j i l.system.world l.threads (λ e. d (ap turn e)) ∙ at)
  waits (probe b p) i l l' d e at = ap (λ x. get_elem? x.threads i) (sym (some-injective e)) ∙ at
  waits round_over i l l' d e at = ap (λ x. get_elem? x.threads i) (sym (some-injective e)) ∙ at
  waits (admin_call c) i l l' d e at = ap (λ x. get_elem? x.threads i) (sym (some-injective e)) ∙ at
  waits (hangup read old_keys new_keys) i l l' d e at =
      ap (λ x. get_elem? x.threads i) (sym (some-injective e)) ∙ at
  waits (cleanup now) i l l' d e at = ap (λ x. get_elem? x.threads i) (sym (some-injective e)) ∙ at

  moves_on :
      (m : Moment) (i : ℕ) (l l' : Live) {t : Thread}
      → m ≡ turn i
      → happen out m l ≡ some l'
      → get_elem? l.threads i ≡ some t
      → get_elem? l'.threads i ≡ some (move out.net t.stage t.frames l.system.world).1
  unfolding happen move_one
  moves_on m i l l' turned e at =
      ap (λ x. get_elem? x.threads i) (some-injective (sym e ∙ ap (λ m. happen out m l) turned))
      ∙ take_turn_self out.net i l.system.world l.threads at

  -- A run without end: what happens at each moment, and the states between.
  pub record Course : Type 0 where
    pub moments : ℕ → Moment
    pub states : ℕ → Live
    pub steps : (k : ℕ) → happen out (moments k) (states k) ≡ some (states (suc k))

  -- From every moment on the thread gets its turn at some later one.
  abbrev pub Fair : Course → ℕ → Type 0
  Fair c i = (k : ℕ) → (d : ℕ) × (c.moments (k + d) ≡ turn i)

  is_turn : (i : ℕ) (m : Moment) → (m ≡ turn i) ⊎ (m ≢ turn i)
  is_turn i (turn j) = elim (ℕ_discrete j i) [
    | yes e ↦ inl (ap turn e)
    | no d ↦ inr (λ e. d (ground (arith, e)))
  ]
  is_turn i (arrival addr now r) = inr (λ e. cc)
  is_turn i (probe b p) = inr (λ e. cc)
  is_turn i round_over = inr (λ e. cc)
  is_turn i (admin_call c) = inr (λ e. cc)
  is_turn i (hangup read old_keys new_keys) = inr (λ e. cc)
  is_turn i (cleanup now) = inr (λ e. cc)

  module _ (c : Course) (i : ℕ) where
    -- The thread is there at the moment, where `t` says.
    abbrev pub StandsAt : Thread → ℕ → Type 0
    StandsAt t k = get_elem? (c.states k).threads i ≡ some t

    abbrev pub Answered : Type 0
    Answered = (k : ℕ) × (resp : Response) × StandsAt (at (returning resp) []) k

    -- Up to the next turn.
    awaited :
        (t : Thread)
        → ((k : ℕ)
            → StandsAt (move out.net t.stage t.frames (c.states k).system.world).1 (suc k)
            → Answered)
        → (d k : ℕ) → c.moments (k + d) ≡ turn i
        → StandsAt t k
        → Answered
    awaited t moved zero k turned at = moved k (
        moves_on (c.moments k) i (c.states k) (c.states (suc k))
          (ap c.moments {x = k} {y = k + 0} (omega arith) ∙ turned) (c.steps k) at)
    awaited t moved (suc d) k turned at = elim (is_turn i (c.moments k)) [
      | inl now ↦
          moved k (moves_on (c.moments k) i (c.states k) (c.states (suc k)) now (c.steps k) at)
      | inr not_yet ↦
          awaited t moved d (suc k)
            (ap c.moments {x = suc k + d} {y = k + suc d} (omega arith) ∙ turned)
            (waits (c.moments k) i (c.states k) (c.states (suc k)) not_yet (c.steps k) at)
    ]

    answered : Fair c i → {t : Thread} → Finishes out.net t → (k : ℕ) → StandsAt t k → Answered
    answered fair (stops (resp, done)) k at = (k, resp, at ∙ ap some done)
    answered fair {t} (goes_on all) k at =
        let (d, turned) = fair k in
        awaited t (λ k' moved. answered fair (all (c.states k').system.world) (suc k') moved) d k
          turned at

  -- In every endless run in which a thread gets its turn after every moment, whatever requests,
  -- probes, admin calls, reloads and cleanups come between its moves, the request that it has begun
  -- to handle is answered.
  pub fair-answered :
      (c : Course) (i k : ℕ) (r : Request) → Fair c i → StandsAt c i (arrived r) k → Answered c i
  fair-answered c i k r fair at = answered c i fair (request-Finishes out.net r []) k at
