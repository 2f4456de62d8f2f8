-- ===== src/Examples/Balancing.antt =====
-- internal/algo: the algorithms over the two backends.
use go_lb.Algo.RoundRobin.Turns.{turns_rotate, AllLive}
use go_lb.Algo.Weighted.Step.{live_total, live_weight}
use go_lb.Examples.Data.{pair, pair-Distinct, heap}
use go_lb.Algo.Contract.{Contract, next-Contract}
use go_lb.Algo.Weighted.{current_weight, weight_of}
use go_lb.Base.Int.{pos}
use go_lb.Algo.Weighted.Fair.{times}
use go_lb.Algo.Weighted.Share.{turns_share, turns_cycle}
use go_lb.Algo.Weighted.Sums.{sum_by}
use go_lb.Base.{length, ◌^◌, ◌+◌, ◌*◌, ◌<◌, ◌≡◌, refl, some, [], ◌∷◌, arith, In, here, empty_map}
use go_lb.Algo
use go_lb.Algo.Weighted.Fair
use go_lb.Algo.RoundRobin.Turns
use go_lb.Backend.{is_alive, get_weight, Ref}
use go_lb.Algo.{weighted_round_robin}

all_live : AllLive heap pair
unfolding is_alive
all_live = (refl, (refl, tt))

some_live : 0 < live_total heap pair
unfolding is_alive weight_of get_weight
some_live = omega arith

fits : (length pair + 1) * live_total heap pair < 2 ^ 63
unfolding is_alive weight_of get_weight
fits = omega arith

turns_rotate_example : Turns.turns heap pair 2 1 ≡ (1, some 0 ∷ some 1 ∷ [])
turns_rotate_example = turns_rotate heap pair all_live (omega arith) 1 (omega arith)

turns_share_example :
    (sum_by (λ b. times b (Fair.turns heap pair 4 empty_map).1) pair ≡ 4)
    × ((b : Ref)
        → In b pair
        → live_total heap pair * times b (Fair.turns heap pair 4 empty_map).1
          < 4 * live_weight heap b + live_total heap pair)
turns_share_example = turns_share heap pair pair-Distinct some_live fits 4

turns_cycle_example :
    (times 0 (Fair.turns heap pair (live_total heap pair) empty_map).1 ≡ live_weight heap 0)
    × (current_weight heap (Fair.turns heap pair (live_total heap pair) empty_map).0 0 ≡ pos 0)
turns_cycle_example = turns_cycle heap pair pair-Distinct some_live fits 0 here

next-Contract_example : Contract heap pair (Algo.next heap (weighted_round_robin empty_map) pair).1
next-Contract_example = next-Contract heap (weighted_round_robin empty_map) pair
