-- ===== src/Algo/Contract.antt =====
-- internal/algo: what every algorithm promises its caller.
use go_lb.Base.{
  ℕ, ◌≡◌, sym, subst, Bool, true, false, Option, none, some, List, All, In, All-In, get_elem?-In,
  In-middle,
}
use go_lb.Backend.{Ref, Heap, is_alive}
use go_lb.Algo.{Algorithm, round_robin, least_connections, weighted_round_robin, next}
use go_lb.Algo.Best.{First, first, nobody}
use go_lb.Algo.RoundRobin.Search.{Picked, picked, exhausted, next-Picked}
use go_lb.Algo.LeastConnections.Least.{fewer}
use go_lb.Algo.LeastConnections.Least
use go_lb.Algo.Weighted.Step.{heavier, weigh}
use go_lb.Algo.Weighted.Step

pub data Contract (h : Heap) (bs : List Ref) : Option Ref → Type 0 where
  chosen : (b : Ref) → In b bs → is_alive h b ≡ true → Contract h bs (some b)
  none_alive : All (λ b. is_alive h b ≡ false) bs → Contract h bs none

First-Contract :
    (h : Heap) (beats : Ref → Ref → Bool) (bs : List Ref) {o : Option Ref}
    → First (is_alive h) beats bs o
    → Contract h bs o
First-Contract h beats bs (nobody dead) = none_alive dead
First-Contract h beats bs (first before b after e l p q) =
    chosen b (subst (In b) (sym e) (In-middle before b after)) l

Picked-Contract :
    (h : Heap) (bs : List Ref) (current : ℕ) {r : ℕ × Option Ref}
    → Picked h bs current r
    → Contract h bs r.1
Picked-Contract h bs current (picked d idx b lt at e l dead) = chosen b (get_elem?-In bs idx e) l
Picked-Contract h bs current (exhausted c dead) = none_alive (All-In _ bs dead)

-- Whatever its state, an algorithm picks a live backend of the list that it is given, and picks none
-- only if all of them are dead.
pub next-Contract : (h : Heap) (a : Algorithm) (bs : List Ref) → Contract h bs (next h a bs).1
unfolding next
next-Contract h (round_robin current) bs = Picked-Contract h bs current (next-Picked h current bs)
next-Contract h least_connections bs = First-Contract h (fewer h) bs (Least.next-First-fewer h bs)
next-Contract h (weighted_round_robin w) bs =
    First-Contract h (heavier h (weigh h w bs).1) bs (Step.next-First-heavier h w bs)
