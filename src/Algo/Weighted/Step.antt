-- ===== src/Algo/Weighted/Step.antt =====
-- internal/algo/weighted_round_robin.go: what one call does to the current weights, and its pick.
use go_lb.Pool.Laws.{In-url}
use go_lb.Base.{
  ℕ, ◌+◌, ◌^◌, ◌<◌, String, ◌≡◌, refl, sym, ap, ◌∙◌, ◌≢◌, Bool, true, false, Option, none, some,
  List, [], ◌∷◌, arith, eq_iff, ◌==◌, if◌then◌else◌, All, In, here, there, In-All, GoMap, insert,
  str_eq_refl, All-map,
}
use go_lb.Base.Int.{ℤ, pos, pos_part, ◌+ℤ◌, ◌-ℤ◌, wrap, wrap-fits, ltb_ℤ}
use go_lb.Backend.{Ref, Heap, url_of, is_alive}
use go_lb.Pool.{Distinct, backend_urls}
use go_lb.Algo.Best.{best_of, First, best_of-First, nobody, keep, First-In}
use go_lb.Algo.Weighted.{
  current_weight, active, prune, weight_of, raise, consider, choose, charge, next,
}

abbrev pub Missing : String → List String → Type 0
Missing v us = All (λ u. u ≢ v) us

-- The weight of a live backend and 0 of a dead one.
abbrev pub live_weight : Heap → Ref → ℕ
live_weight h b = if is_alive h b then pos_part (weight_of h b) else 0

abbrev pub live_total : Heap → List Ref → ℕ
live_total h [] = 0
live_total h (b ∷ bs) = live_weight h b + live_total h bs

-- The current weight of a backend when the weights have been added.
unfoldable pub raised : Heap → GoMap ℤ → Ref → ℤ
raised h w b =
    if is_alive h b then wrap (current_weight h w b +ℤ weight_of h b) else current_weight h w b

pub weight_of-pos :
    (h : Heap) (b : Ref)
    → (weight_of h b ≡ pos (pos_part (weight_of h b))) × (0 < pos_part (weight_of h b))
unfolding weight_of
weight_of-pos h b = ground arith

add-weight :
    (h : Heap) (k : ℕ) (b : Ref)
    → k + live_weight h b < 2 ^ 63
    → (if is_alive h b then wrap (pos k +ℤ weight_of h b) else pos k) ≡ pos (k + live_weight h b)
unfolding ◌+ℤ◌
add-weight h k b fits = ground (arith, weight_of-pos h b, wrap-fits (pos (k + live_weight h b)))

raise-total :
    (h : Heap) (bs : List Ref) (k : ℕ) (w : GoMap ℤ)
    → k + live_total h bs < 2 ^ 63
    → (raise h bs (pos k) w).0 ≡ pos (k + live_total h bs)
unfolding raise
raise-total h [] k w fits = ground arith
raise-total h (b ∷ bs) k w fits =
    ap
      (λ t.
        (raise h bs t (
          if is_alive h b
          then insert w (url_of h b) (wrap (current_weight h w b +ℤ weight_of h b))
          else w)).0)
      (add-weight h k b (omega arith))
    ∙ (raise-total h bs (k + live_weight h b) _ (omega arith) ∙ ap pos (omega arith))

raise-Missing :
    (h : Heap) (bs : List Ref) (k : ℤ) (w : GoMap ℤ) (v : String)
    → Missing v (backend_urls h bs)
    → (raise h bs k w).1 v ≡ w v
unfolding raise
raise-Missing h [] k w v n = refl
raise-Missing h (b ∷ bs) k w v n =
    raise-Missing h bs _ _ v n.1 ∙ ground (arith, eq_iff (url_of h b) v)

Distinct-Missing :
    (h : Heap) (b : Ref) (bs : List Ref)
    → All (λ v. url_of h b ≢ v) (backend_urls h bs)
    → Missing (url_of h b) (backend_urls h bs)
Distinct-Missing h b bs = All-map _ _ (λ v n e. n (sym e)) (backend_urls h bs)

active-In : (h : Heap) (bs : List Ref) (b : Ref) → In b bs → active h bs (url_of h b) ≡ true
unfolding active
active-In h [] b m = elim m [ ]
active-In h (x ∷ bs) b here = rw (str_eq_refl (url_of h b))
active-In h (x ∷ bs) b (there m) = ground (arith, active-In h bs b m)

prune-In :
    (h : Heap) (bs : List Ref) (w : GoMap ℤ) (b : Ref)
    → In b bs
    → prune h bs w (url_of h b) ≡ w (url_of h b)
unfolding prune
prune-In h bs w b m = rw (active-In h bs b m)

raise-In :
    (h : Heap) (bs : List Ref) (k : ℤ) (w : GoMap ℤ) (b : Ref)
    → Distinct (backend_urls h bs)
    → In b bs
    → current_weight h (raise h bs k w).1 b ≡ raised h w b
unfolding raise raised
raise-In h [] k w b d m = elim m [ ]
raise-In h (x ∷ bs) k w b d here =
    rw (raise-Missing h bs _ _ (url_of h x) (Distinct-Missing h x bs d.0))
      (ground (arith, str_eq_refl (url_of h x)))
raise-In h (x ∷ bs) k w b d (there m) =
    let apart = In-All _ (backend_urls h bs) d.0 (In-url h b bs m) in
    raise-In h bs _ _ b d.1 m ∙ ground (arith, eq_iff (url_of h x) (url_of h b))

-- Pointers to backends of the pool are the same if their URLs are.
pub url-injective :
    (h : Heap) (bs : List Ref) (b c : Ref)
    → Distinct (backend_urls h bs)
    → In b bs
    → In c bs
    → url_of h b ≡ url_of h c
    → b ≡ c
url-injective h [] b c d m n e = elim m [ ]
url-injective h (x ∷ bs) b c d here here e = refl
url-injective h (x ∷ bs) b c d here (there n) e =
    absurd (In-All _ (backend_urls h bs) d.0 (In-url h c bs n) e)
url-injective h (x ∷ bs) b c d (there m) here e =
    absurd (In-All _ (backend_urls h bs) d.0 (In-url h b bs m) (sym e))
url-injective h (x ∷ bs) b c d (there m) (there n) e = url-injective h bs b c d.1 m n e

abbrev pub heavier : Heap → GoMap ℤ → Ref → Ref → Bool
heavier h w x y = ltb_ℤ (current_weight h w y) (current_weight h w x)

choose-best_of :
    (h : Heap) (w : GoMap ℤ) (best : Option Ref) (bs : List Ref)
    → choose h w best bs ≡ best_of (is_alive h) (heavier h w) best bs
unfolding choose
choose-best_of h w best [] = refl
choose-best_of h w best (b ∷ bs) =
    choose-best_of h w (consider h w best b) bs
    ∙ ap (λ t. best_of (is_alive h) (heavier h w) t bs) (consider-keep h w best b)
  where
    consider-keep :
        (h : Heap) (w : GoMap ℤ) (best : Option Ref) (b : Ref)
        → consider h w best b ≡ keep (is_alive h) (heavier h w) best b
    consider-keep h w best b = ground arith

choose-First :
    (h : Heap) (w : GoMap ℤ) (bs : List Ref)
    → First (is_alive h) (heavier h w) bs (choose h w none bs)
choose-First h w bs = rw (choose-best_of h w none bs) (
    best_of-First (is_alive h) (heavier h w) (λ x b y p q. ground arith) (λ x b y p q. ground arith)
      [] bs (nobody tt))

-- The weights with which one call compares, and what it adds up.
unfoldable pub weigh : Heap → GoMap ℤ → List Ref → ℤ × GoMap ℤ
weigh h w bs = raise h bs (pos 0) (prune h bs w)

-- `Next` picks the first of the live backends whose current weight, raised by their weight, is
-- greatest; or no backend is alive and it picks none.
pub next-First-heavier :
    (h : Heap) (w : GoMap ℤ) (bs : List Ref)
    → First (is_alive h) (heavier h (weigh h w bs).1) bs (next h w bs).1
unfolding next weigh
next-First-heavier h w bs = choose-First h (weigh h w bs).1 bs

pub weigh-In :
    (h : Heap) (w : GoMap ℤ) (bs : List Ref) (b : Ref)
    → Distinct (backend_urls h bs)
    → In b bs
    → current_weight h (weigh h w bs).1 b ≡ raised h w b
unfolding weigh raised
weigh-In h w bs b d m = raise-In h bs (pos 0) (prune h bs w) b d m ∙ rw (prune-In h bs w b m)

weigh-total :
    (h : Heap) (w : GoMap ℤ) (bs : List Ref)
    → live_total h bs < 2 ^ 63
    → (weigh h w bs).0 ≡ pos (live_total h bs)
unfolding weigh
weigh-total h w bs fits = raise-total h bs 0 (prune h bs w) (omega arith) ∙ ap pos (omega arith)

abbrev pub picks : Option Ref → Ref → Bool
picks none b = false
picks (some c) b = c == b

charge-In :
    (h : Heap) (w : GoMap ℤ) (total : ℤ) (bs : List Ref) (b : Ref) (o : Option Ref)
    → Distinct (backend_urls h bs)
    → In b bs
    → First (is_alive h) (heavier h w) bs o
    → current_weight h (charge h w total o) b
      ≡ (if picks o b then wrap (current_weight h w b -ℤ total) else current_weight h w b)
unfolding charge
charge-In h w total bs b none d m f = refl
charge-In h w total bs b (some c) d m f =
    let n = (First-In (is_alive h) (heavier h w) bs f).0 in
    ground (arith, eq_iff (url_of h c) (url_of h b), url-injective h bs c b d n m)

-- One call raises the current weight of each live backend by its weight, and takes the total of
-- these weights from the backend that it picks; the weights of dead backends stay. An int holds the
-- total.
pub next-weights :
    (h : Heap) (w : GoMap ℤ) (bs : List Ref) (b : Ref)
    → Distinct (backend_urls h bs)
    → In b bs
    → live_total h bs < 2 ^ 63
    → current_weight h (next h w bs).0 b ≡ (
        if picks (next h w bs).1 b
        then wrap (raised h w b -ℤ pos (live_total h bs))
        else raised h w b)
unfolding next weigh
next-weights h w bs b d m fits =
    charge-In h (weigh h w bs).1 (weigh h w bs).0 bs b _ d m (choose-First h (weigh h w bs).1 bs)
    ∙ rw (weigh-In h w bs b d m, weigh-total h w bs fits)
