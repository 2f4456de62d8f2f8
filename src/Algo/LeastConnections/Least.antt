-- ===== src/Algo/LeastConnections/Least.antt =====
-- internal/algo/least_connections.go: which backend is picked.
use go_lb.Base.{◌≡◌, refl, ap, ◌∙◌, Bool, Option, none, some, List, [], ◌∷◌, arith}
use go_lb.Base.Int.{ℤ, ltb_ℤ}
use go_lb.Backend.{Ref, Heap, is_alive, active_conns}
use go_lb.Algo.Best.{best_of, First, best_of-First, nobody, keep}
use go_lb.Algo.LeastConnections.{consider, scan, next}

abbrev pub fewer : Heap → Ref → Ref → Bool
fewer h x y = ltb_ℤ (active_conns h x) (active_conns h y)

abbrev with_conns : Heap → Option Ref → Option (Ref × ℤ)
with_conns h none = none
with_conns h (some b) = some (b, active_conns h b)

consider-keep :
    (h : Heap) (best : Option Ref) (b : Ref)
    → consider h (with_conns h best) b ≡ with_conns h (keep (is_alive h) (fewer h) best b)
unfolding consider
consider-keep h none b = ground arith
consider-keep h (some c) b = ground arith

scan-best_of :
    (h : Heap) (best : Option Ref) (bs : List Ref)
    → scan h (with_conns h best) bs ≡ with_conns h (best_of (is_alive h) (fewer h) best bs)
unfolding scan
scan-best_of h best [] = refl
scan-best_of h best (b ∷ bs) =
    ap (λ t. scan h t bs) (consider-keep h best b)
    ∙ scan-best_of h (keep (is_alive h) (fewer h) best b) bs

peer-with_conns :
    (h : Heap) (o : Option Ref) → elim (with_conns h o) [ none ↦ none | some (b, _) ↦ some b ] ≡ o
peer-with_conns h none = refl
peer-with_conns h (some b) = refl

next-best_of : (h : Heap) (bs : List Ref) → next h bs ≡ best_of (is_alive h) (fewer h) none bs
unfolding next
next-best_of h bs =
    ap (λ t. elim t [ none ↦ none | some (b, _) ↦ some b ]) (scan-best_of h none bs)
    ∙ peer-with_conns h _

-- `Next` picks a live backend that has fewer active connections than every live one before it in
-- the list, and no more than any live one after it; or no backend is alive and it picks none.
pub next-First-fewer : (h : Heap) (bs : List Ref) → First (is_alive h) (fewer h) bs (next h bs)
next-First-fewer h bs = rw (next-best_of h bs) (
    best_of-First (is_alive h) (fewer h) (λ x b y p q. ground arith) (λ x b y p q. ground arith) []
      bs (nobody tt))
