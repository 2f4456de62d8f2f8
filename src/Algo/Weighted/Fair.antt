-- ===== src/Algo/Weighted/Fair.antt =====
-- internal/algo/weighted_round_robin.go: the account of many calls. After any of them, a backend has
-- been picked as often as its current weight and its share of the calls say.
use native.Mathlib.Nat.{add-zero, zero-add}
use go_lb.Base.{
  ℕ, zero, suc, ◌+◌, ◌*◌, ◌^◌, ◌≤◌, ◌<◌, ◌≡◌, refl, sym, ap, subst, fun_ext, ◌≢◌, inl, inr, true,
  false, Option, none, some, List, [], ◌∷◌, arith, dec_lt, if◌then◌else◌, Bool-cases, Option-cases,
  length, All, In, All-In, GoMap, empty_map,
}
use go_lb.Base.Int.{
  ℤ, pos, pos_part, neg_part, ◌+ℤ◌, ◌-ℤ◌, wrap-fits, ◌≤ℤ◌, +ℤ_parts, -ℤ_parts, one_sign,
}
use go_lb.Backend.{Ref, Heap, is_alive}
use go_lb.Pool.{Distinct, backend_urls}
use go_lb.Algo.Best.{First, First-unbeaten, First-In, first, nobody}
use go_lb.Algo.Weighted.{current_weight, weight_of, next}
use go_lb.Algo.Weighted.Step.{
  live_weight, live_total, raised, weigh, picks, next-weights, weight_of-pos, heavier, weigh-In,
  next-First-heavier,
}
use go_lb.Algo.Weighted.Sums.{
  sum_by, sum_by-le-mul, le-sum_by, sum_by-add_le, at, sum_by-at, sum_by-add, sum_by-plus, mul-at,
  sum_by-zero,
}

-- `k` calls of `Next`: the weights after them, and what they picked.
pub turns : Heap → List Ref → ℕ → GoMap ℤ → GoMap ℤ × List (Option Ref)
turns h bs zero w = (w, [])
turns h bs (suc k) w =
    let (w', peer) = next h w bs in let (last, peers) = turns h bs k w' in (last, peer ∷ peers)

abbrev pub times : Ref → List (Option Ref) → ℕ
times b [] = 0
times b (o ∷ os) = (if picks o b then 1 else 0) + times b os

pub total-sum_by : (h : Heap) (bs : List Ref) → live_total h bs ≡ sum_by (live_weight h) bs
total-sum_by h [] = refl
total-sum_by h (b ∷ bs) = ap (λ t. live_weight h b + t) (total-sum_by h bs)

abbrev pub up : Heap → GoMap ℤ → Ref → ℕ
up h w b = pos_part (current_weight h w b)

abbrev pub down : Heap → GoMap ℤ → Ref → ℕ
down h w b = neg_part (current_weight h w b)

twice_fits :
    (h : Heap) (bs : List Ref)
    → (length bs + 1) * live_total h bs < 2 ^ 63
    → live_total h bs + live_total h bs < 2 ^ 63
twice_fits h [] fits = omega arith
twice_fits h (b ∷ bs) fits = omega arith

-- The last hypothesis says that an int holds what the weights may come to.
module _ (h : Heap) (bs : List Ref) (d : Distinct (backend_urls h bs))
    (some_live : 0 < live_total h bs) (fits : (length bs + 1) * live_total h bs < 2 ^ 63) where
  -- After `t` calls of which `n b` picked `b`.
  pub record Fair (w : GoMap ℤ) (n : Ref → ℕ) (t : ℕ) : Type 0 where
    pub exact :
        (b : Ref) → In b bs → up h w b + live_total h bs * n b ≡ down h w b + t * live_weight h b
    pub above : (b : Ref) → In b bs → down h w b < live_total h bs
    pub balance : sum_by (up h w) bs ≡ sum_by (down h w) bs
    pub counted : sum_by n bs ≡ t

  -- There is room for one more call.
  pub record Room (w : GoMap ℤ) (b : Ref) : Type 0 where
    pub high : up h w b + live_total h bs < 2 ^ 63
    pub low : down h w b < live_total h bs
    pub within : live_weight h b ≤ live_total h bs

  Fair-Room : {w : GoMap ℤ} {n : Ref → ℕ} {t : ℕ} → Fair w n t → (b : Ref) → In b bs → Room w b
  Fair-Room {w} f b m =
      let low = sum_by-le-mul (down h w) (live_total h bs) bs (All-In _ bs f.above) in
      record {
        high = omega (arith, fits, f.balance, low, le-sum_by (up h w) bs b m);
        low = f.above b m;
        within = omega (arith, total-sum_by h bs, le-sum_by (live_weight h) bs b m);
      }

  raised-parts :
      (w : GoMap ℤ) (b : Ref)
      → Room w b
      → pos_part (raised h w b) + down h w b ≡ neg_part (raised h w b) + up h w b + live_weight h b
  unfolding raised
  raised-parts w b room =
      let sum = current_weight h w b +ℤ weight_of h b in
      ground (
        arith,
        room.high,
        room.low,
        room.within,
        twice_fits h bs fits,
        weight_of-pos h b,
        +ℤ_parts (current_weight h w b) (weight_of h b),
        one_sign sum,
        one_sign (current_weight h w b),
        wrap-fits sum,
      )

  next-parts :
      (w : GoMap ℤ) (b : Ref)
      → In b bs
      → Room w b
      → up h (next h w bs).0 b
          + down h w b
          + (if picks (next h w bs).1 b then live_total h bs else 0)
        ≡ down h (next h w bs).0 b + up h w b + live_weight h b
  next-parts w b m room =
      let paid = raised h w b -ℤ pos (live_total h bs) in
      let parts = raised-parts w b room in
      let account = -ℤ_parts (raised h w b) (pos (live_total h bs)) in
      let twice = twice_fits h bs fits in
      let small : (pos_part paid < 2 ^ 63) × (neg_part paid ≤ 2 ^ 63) = ground (
        arith,
        account,
        parts,
        room.high,
        room.low,
        room.within,
        twice,
        one_sign paid,
        one_sign (raised h w b),
        one_sign (current_weight h w b),
      ) in
      let same = wrap-fits paid small.0 small.1 in
      ground (arith, next-weights h w bs b d m (omega (arith, twice)), parts, same, account)

  -- A backend with no weight has never been picked, and its current weight is 0.
  idle :
      {w : GoMap ℤ} {n : Ref → ℕ} {t : ℕ}
      → Fair w n t
      → (b : Ref) → In b bs
      → live_weight h b ≡ 0
      → up h w b ≤ down h w b
  idle {w} {n} {t} f b m e = omega (arith, f.exact b m, f.above b m, ap (λ k. t * k) e)

  top :
      (w : GoMap ℤ) {c : Ref}
      → First (is_alive h) (heavier h (weigh h w bs).1) bs (some c)
      → (b : Ref) → In b bs
      → is_alive h b ≡ true
      → raised h w b ≤ℤ raised h w c
  top w {c} f b m l =
      let low =
        First-unbeaten (is_alive h) (heavier h (weigh h w bs).1) (λ x y p. ground arith)
          (λ x. ground arith) bs f b m l in
      let n = (First-In (is_alive h) (heavier h (weigh h w bs).1) bs f).0 in
      ground (arith, low, weigh-In h w bs b d m, weigh-In h w bs c d n)

  winner :
      {w : GoMap ℤ} {n : Ref → ℕ} {t : ℕ}
      → Fair w n t
      → (c : Ref) → First (is_alive h) (heavier h (weigh h w bs).1) bs (some c)
      → 0 < pos_part (raised h w c)
  winner {w} fair c f = elim (dec_lt 0 (pos_part (raised h w c))) [
    | yes high ↦ high
    | no low ↦ absurd (
        omega (
          arith,
          fair.balance,
          total-sum_by h bs,
          sum_by-add_le (up h w) (live_weight h) (down h w) bs (All-In _ bs (sink (omega arith))),
        ))
  ]
    where
      sink :
          pos_part (raised h w c) ≡ 0
          → (b : Ref) → In b bs
          → up h w b + live_weight h b ≤ down h w b
      sink low b m = elim (Bool-cases (is_alive h b)) [
        | inl on ↦ omega (arith, raised-parts w b (Fair-Room fair b m), top w f b m on)
        | inr off ↦ ground (arith, idle fair b m)
      ]

  dead_total : (cs : List Ref) → All (λ b. is_alive h b ≡ false) cs → live_total h cs ≡ 0
  dead_total [] dead = refl
  dead_total (c ∷ cs) dead = ground (arith, dead.0, dead_total cs dead.1)

  next-some : (w : GoMap ℤ) → (next h w bs).1 ≢ none
  next-some w e = go (next-First-heavier h w bs) e
    where
      go : {o : Option Ref} → First (is_alive h) (heavier h (weigh h w bs).1) bs o → o ≢ none
      go (first before b after e on lose keep_up) s = cc
      go (nobody dead) s = absurd (omega (arith, dead_total bs dead))

  module _ {w : GoMap ℤ} {n : Ref → ℕ} {t : ℕ} (fair : Fair w n t) (c : Ref)
      (e : (next h w bs).1 ≡ some c) where
    choice : First (is_alive h) (heavier h (weigh h w bs).1) bs (some c)
    choice = rw e at (next-First-heavier h w bs)

    chosen : In c bs
    chosen = (First-In (is_alive h) (heavier h (weigh h w bs).1) bs choice).0

    flow :
        (b : Ref)
        → In b bs
        → up h (next h w bs).0 b + down h w b + at c (live_total h bs) b
          ≡ down h (next h w bs).0 b + up h w b + live_weight h b
    flow b m = rw e at (next-parts w b m (Fair-Room fair b m))

    pays : (b : Ref) → In b bs → down h (next h w bs).0 b < live_total h bs
    pays b m = ground (
      arith,
      flow b m,
      fair.above b m,
      winner fair c choice,
      raised-parts w b (Fair-Room fair b m),
      one_sign (current_weight h (next h w bs).0 b),
      one_sign (raised h w b),
    )

    next-exact :
        (b : Ref)
        → In b bs
        → up h (next h w bs).0 b + live_total h bs * (n b + at c 1 b)
          ≡ down h (next h w bs).0 b + suc t * live_weight h b
    next-exact b m =
        let split : suc t * live_weight h b ≡ t * live_weight h b + live_weight h b = omega arith in
        omega (arith, split, mul-at c b (n b) (live_total h bs), flow b m, fair.exact b m)

    next-Fair : Fair (next h w bs).0 (λ b. n b + at c 1 b) (suc t)
    next-Fair = record {
      exact = next-exact;
      above = pays;
      balance = omega (
        arith,
        fair.balance,
        total-sum_by h bs,
        sum_by-at h c (live_total h bs) bs d chosen,
        sum_by-add (up h (next h w bs).0) (down h w) (at c (live_total h bs))
            (down h (next h w bs).0) (up h w) (live_weight h) bs (All-In _ bs flow),
      );
      counted = omega (arith, fair.counted, sum_by-plus n (at c 1) bs, sum_by-at h c 1 bs d chosen);
    }

  start-Fair : Fair empty_map (λ b. 0) 0
  start-Fair = record {
    exact = λ b m. omega arith;
    above = λ b m. some_live;
    balance = refl;
    counted = sum_by-zero bs;
  }

  turns-Fair :
      (k : ℕ) {w : GoMap ℤ} {n : Ref → ℕ} {t : ℕ}
      → Fair w n t
      → Fair (turns h bs k w).0 (λ b. n b + times b (turns h bs k w).1) (t + k)
  unfolding turns
  turns-Fair zero {w} {n} {t} fair =
      subst (λ k. Fair w (λ b. n b + 0) k) (sym (add-zero t))
        (subst (λ f. Fair w f t) (fun_ext (λ b. sym (add-zero (n b)))) fair)
  turns-Fair (suc k) {w} {n} {t} fair = elim (Option-cases (next h w bs).1) [
    | inl e ↦ absurd (next-some w e)
    | inr (c, e) ↦
        let sum : suc t + k ≡ t + suc k = omega arith in
        subst
          (λ j.
            Fair (turns h bs k (next h w bs).0).0 (λ b. n b + times b (turns h bs (suc k) w).1) j)
          sum
          (subst (λ f. Fair (turns h bs k (next h w bs).0).0 f (suc t + k))
            (fun_ext (λ b. regroup c e b (times b (turns h bs k (next h w bs).0).1)))
            (turns-Fair k (next-Fair fair c e)))
  ]
    where
      regroup :
          (c : Ref)
          → (next h w bs).1 ≡ some c
          → (b j : ℕ) → n b + at c 1 b + j ≡ n b + ((if picks (next h w bs).1 b then 1 else 0) + j)
      regroup c e b j = ground (arith, e)

  pub run-Fair :
      (t : ℕ) → Fair (turns h bs t empty_map).0 (λ b. times b (turns h bs t empty_map).1) t
  run-Fair t =
      subst (λ k. Fair (turns h bs t empty_map).0 (λ b. times b (turns h bs t empty_map).1) k)
        (zero-add t)
        (subst (λ f. Fair (turns h bs t empty_map).0 f (0 + t))
          (fun_ext (λ b. zero-add (times b (turns h bs t empty_map).1))) (turns-Fair t start-Fair))
