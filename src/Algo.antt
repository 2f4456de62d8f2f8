-- ===== src/Algo.antt =====
-- internal/algo/algo.go: the three algorithms behind one interface. The interface value is a
-- constructor with the algorithm's state; `Next` gives the new state and the backend.
pub mod Best
pub mod RoundRobin
pub mod LeastConnections
pub mod Weighted
pub mod Contract
use go_lb.Base.{ℕ, String, Option, none, some, List, str_eq, if◌then◌else◌, GoMap, empty_map}
use go_lb.Base.Int.{ℤ}
use go_lb.Backend.{Ref, Heap}
use RoundRobin
use LeastConnections
use Weighted

pub data Algorithm : Type 0 where
  round_robin : (current : ℕ) → Algorithm
  least_connections : Algorithm
  weighted_round_robin : (current_weights : GoMap ℤ) → Algorithm

-- `none` is the error for an unknown name.
unfoldable pub new : String → Option Algorithm
new algorithm =
    if str_eq algorithm "round_robin"
    then some (round_robin 0)
    else if str_eq algorithm "least_connections"
    then some least_connections
    else if str_eq algorithm "weighted_round_robin"
    then some (weighted_round_robin empty_map)
    else none

unfoldable pub name : Algorithm → String
name (round_robin _) = "round_robin"
name least_connections = "least_connections"
name (weighted_round_robin _) = "weighted_round_robin"

unfoldable pub next : Heap → Algorithm → List Ref → Algorithm × Option Ref
next h (round_robin current) bs =
    let (current', peer) = RoundRobin.next h current bs in (round_robin current', peer)
next h least_connections bs = (least_connections, LeastConnections.next h bs)
next h (weighted_round_robin weights) bs =
    let (weights', peer) = Weighted.next h weights bs in (weighted_round_robin weights', peer)
