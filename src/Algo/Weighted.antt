-- ===== src/Algo/Weighted.antt =====
-- internal/algo/weighted_round_robin.go: the smooth weighted round robin of nginx.
pub mod Step
pub mod Sums
pub mod Fair
pub mod Share
use go_lb.Base.{
  String, Bool, true, false, not, Option, none, some, List, [], ◌∷◌, str_eq, if◌then◌else◌, GoMap,
  insert, get_or,
}
use go_lb.Base.Int.{ℤ, pos, ◌+ℤ◌, ◌-ℤ◌, wrap, ltb_ℤ, leb_ℤ}
use go_lb.Backend.{Ref, Heap, url_of, is_alive, get_weight}

-- The element of the map at the URL of a backend; an absent element reads as 0.
abbrev pub current_weight : Heap → GoMap ℤ → Ref → ℤ
current_weight h w b = get_or (w (url_of h b)) (pos 0)

unfoldable pub active : Heap → List Ref → String → Bool
active h [] key = false
active h (b ∷ bs) key = if str_eq (url_of h b) key then true else active h bs key

-- `delete` for every key that is not in the pool.
unfoldable pub prune : Heap → List Ref → GoMap ℤ → GoMap ℤ
unfolding active
prune h bs w key = if active h bs key then w key else none

unfoldable pub weight_of : Heap → Ref → ℤ
weight_of h b = if leb_ℤ (get_weight h b) (pos 0) then pos 1 else get_weight h b

-- The loop that adds the weights, over `totalWeight` and the map.
unfoldable pub raise : Heap → List Ref → ℤ → GoMap ℤ → ℤ × GoMap ℤ
unfolding weight_of
raise h [] total w = (total, w)
raise h (b ∷ bs) total w =
    raise h bs (if is_alive h b then wrap (total +ℤ weight_of h b) else total) (
      if is_alive h b
      then insert w (url_of h b) (wrap (current_weight h w b +ℤ weight_of h b))
      else w)

-- One round of the loop over `best`.
unfoldable pub consider : Heap → GoMap ℤ → Option Ref → Ref → Option Ref
consider h w best b = if not (is_alive h b) then best else elim best [
  | none ↦ some b
  | some c ↦ if ltb_ℤ (current_weight h w c) (current_weight h w b) then some b else some c
]

unfoldable pub choose : Heap → GoMap ℤ → Option Ref → List Ref → Option Ref
unfolding consider
choose h w best [] = best
choose h w best (b ∷ bs) = choose h w (consider h w best b) bs

-- The selected backend pays the total weight.
unfoldable pub charge : Heap → GoMap ℤ → ℤ → Option Ref → GoMap ℤ
charge h w total none = w
charge h w total (some b) = insert w (url_of h b) (wrap (current_weight h w b -ℤ total))

unfoldable pub next : Heap → GoMap ℤ → List Ref → GoMap ℤ × Option Ref
unfolding prune raise choose charge
next h w bs =
    let (total, raised) = raise h bs (pos 0) (prune h bs w) in
    let best = choose h raised none bs in (charge h raised total best, best)
