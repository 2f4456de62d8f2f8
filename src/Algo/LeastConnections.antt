-- ===== src/Algo/LeastConnections.antt =====
-- internal/algo/least_connections.go.
pub mod Least
use go_lb.Base.{not, Option, none, some, List, [], ◌∷◌, if◌then◌else◌}
use go_lb.Base.Int.{ℤ, ltb_ℤ}
use go_lb.Backend.{Ref, Heap, is_alive, active_conns}

-- One round of the loop over `best` and `bestConns`.
unfoldable pub consider : Heap → Option (Ref × ℤ) → Ref → Option (Ref × ℤ)
consider h best b = if not (is_alive h b) then best else elim best [
  | none ↦ some (b, active_conns h b)
  | some (c, best_conns) ↦
      if ltb_ℤ (active_conns h b) best_conns
      then some (b, active_conns h b)
      else some (c, best_conns)
]

unfoldable pub scan : Heap → Option (Ref × ℤ) → List Ref → Option (Ref × ℤ)
unfolding consider
scan h best [] = best
scan h best (b ∷ bs) = scan h (consider h best b) bs

unfoldable pub next : Heap → List Ref → Option Ref
next h bs = elim (scan h none bs) [ none ↦ none | some (b, _) ↦ some b ]
