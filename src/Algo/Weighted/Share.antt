-- ===== src/Algo/Weighted/Share.antt =====
-- internal/algo/weighted_round_robin.go: how often each backend is picked over many calls.
use go_lb.Algo.Weighted.{current_weight}
use go_lb.Algo.Weighted.Sums.{sum_by, sum_by-tight}
use go_lb.Algo.Weighted.Step.{live_total, live_weight}
use go_lb.Pool.{Distinct, backend_urls}
use go_lb.Backend.{Heap, Ref}
use go_lb.Base.{
  ℕ, ◌+◌, ◌*◌, ◌^◌, ◌≤◌, ◌<◌, ◌≡◌, ap, ◌∙◌, List, arith, length, All, In, In-All, All-In, empty_map,
}
use go_lb.Base.Int.{pos, eq_of_parts}
use go_lb.Algo.Weighted.Fair.{turns, times, run-Fair, total-sum_by}

le_share : (k n m : ℕ) → k * n < k * m + k → n ≤ m
le_share k n m h = grind arith

module _ (h : Heap) (bs : List Ref) (d : Distinct (backend_urls h bs))
    (some_live : 0 < live_total h bs) (fits : (length bs + 1) * live_total h bs < 2 ^ 63) where
  -- If an int holds the total of the live weights times one more than the length of the list, then
  -- from empty weights, with the backends' status and weights unchanged over `t` calls, every call
  -- picks a backend of the pool, and none is picked more than its share and less than one call more,
  -- where the share is `t` times its weight over the total of the live weights (and 0 for a dead
  -- backend).
  pub turns_share :
      (t : ℕ)
      → (sum_by (λ b. times b (turns h bs t empty_map).1) bs ≡ t)
        × ((b : Ref)
            → In b bs
            → live_total h bs * times b (turns h bs t empty_map).1
              < t * live_weight h b + live_total h bs)
  turns_share t =
      let fair = run-Fair h bs d some_live fits t in
      (fair.counted, λ b m. omega (arith, fair.exact b m, fair.above b m))

  -- If an int holds the total of the live weights times one more than the length of the list, then
  -- from empty weights, over as many calls as the live weights add up to, with the backends' status
  -- and weights unchanged, each backend is picked exactly as often as its weight says (a dead one
  -- never), and at the end every current weight is 0 again.
  pub turns_cycle :
      (b : Ref)
      → In b bs
      → let after = turns h bs (live_total h bs) empty_map in
        (times b after.1 ≡ live_weight h b) × (current_weight h after.0 b ≡ pos 0)
  turns_cycle b m =
      let fair = run-Fair h bs d some_live fits (live_total h bs) in
      let within : All (λ b. times b (turns h bs (live_total h bs) empty_map).1 ≤ live_weight h b)
          bs =
        All-In _ bs
          (λ b m. le_share (live_total h bs) _ _ ((turns_share (live_total h bs)).1 b m)) in
      let met =
        In-All _ bs
          (sum_by-tight (λ b. times b (turns h bs (live_total h bs) empty_map).1) (live_weight h) bs
            within (fair.counted ∙ total-sum_by h bs))
          m in
      (met, eq_of_parts _ _ (omega (arith, fair.exact b m, ap (λ k. live_total h bs * k) met)))
