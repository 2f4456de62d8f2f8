-- ===== src/Algo/RoundRobin/Turns.antt =====
-- internal/algo/round_robin.go: runs of calls while every backend is alive.
use mathlib.Core.List.{map-append}
use native.Mathlib.Nat.{add-zero, zero-add, mod-eq_of_lt, suc-add, mod-eq-sub-mod}
use go_lb.Base.{
  ℕ, zero, suc, ◌+◌, ◌%◌, ◌^◌, ◌<◌, ◌≡◌, true, Option, some, List, [], ◌∷◌, map, arith, length,
  get_elem?, All, In-All, lt-get_elem?, take, drop, get_elem?-In, ◌∙◌, ap, sym, ◌++◌, ◌-◌,
  take-drop_all, take-drop-suc,
}
use go_lb.Backend.{Ref, Heap, is_alive}
use go_lb.Algo.RoundRobin.{u64, next}
use go_lb.Algo.RoundRobin.Search.{Picked, picked, exhausted, next-Picked}

-- `k` calls of `Next`: the counter after them, and what they picked.
pub turns : Heap → List Ref → ℕ → ℕ → ℕ × List (Option Ref)
turns h bs zero current = (current, [])
turns h bs (suc k) current =
    let (current', peer) = next h current bs in
    let (last, peers) = turns h bs k current' in (last, peer ∷ peers)

abbrev pub AllLive : Heap → List Ref → Type 0
AllLive h = All (λ b. is_alive h b ≡ true)

Picked-live :
    (h : Heap) (bs : List Ref) (current : ℕ) {r : ℕ × Option Ref}
    → AllLive h bs
    → 0 < length bs
    → Picked h bs current r
    → (r.0 ≡ u64 (current + 1) % length bs) × (get_elem? bs r.0 ≡ r.1)
Picked-live h bs current live pos (picked zero idx b lt at e l dead) = (grind arith, e)
Picked-live h bs current live pos (picked (suc d) idx b lt at e l dead) =
    let (c, ec, dc) = dead 0 (omega arith) in
    absurd (cc (dc, In-All (λ b. is_alive h b ≡ true) bs live (get_elem?-In bs _ ec)))
Picked-live h bs current live pos (exhausted c dead) =
    let (b, e) = lt-get_elem? bs 0 pos in
    let m = get_elem?-In bs 0 e in
    absurd (cc (dead b m, In-All (λ b. is_alive h b ≡ true) bs live m))

module _ (h : Heap) (bs : List Ref) (live : AllLive h bs) (fits : length bs < 2 ^ 63) where
  next-live :
      (current : ℕ) {b : Ref}
      → current < length bs
      → get_elem? bs ((current + 1) % length bs) ≡ some b
      → next h current bs ≡ ((current + 1) % length bs, some b)
  next-live current lt e =
      let (at, pick) = Picked-live h bs current live (omega arith) (next-Picked h current bs) in
      let idx : (next h current bs).0 ≡ (current + 1) % length bs =
        at ∙ ap (λ t. t % length bs) (omega arith) in
      let peer = sym pick ∙ (ap (get_elem? bs) idx ∙ e) in λ i. (idx i, peer i)

  turns-suc :
      (k current : ℕ) {b : Ref}
      → current < length bs
      → get_elem? bs ((current + 1) % length bs) ≡ some b
      → turns h bs (suc k) current
        ≡ (let (last, peers) = turns h bs k ((current + 1) % length bs) in (last, some b ∷ peers))
  unfolding turns
  turns-suc k current lt e = rw (next-live current lt e)

  turns_straight :
      (k current : ℕ)
      → current + k < length bs
      → turns h bs k current ≡ (current + k, map some (take k (drop (suc current) bs)))
  unfolding turns
  turns_straight zero current lt = rw add-zero
  turns_straight (suc k) current lt =
      let (b, e) = lt-get_elem? bs (suc current) (omega arith) in
      let at : (current + 1) % length bs ≡ suc current =
        ap (λ t. t % length bs) (omega arith) ∙ mod-eq_of_lt (omega arith) in
      let sum : suc current + k ≡ current + suc k = omega arith in
      turns-suc k current (omega arith) (ap (get_elem? bs) at ∙ e)
      ∙ rw (
        at,
        turns_straight k (suc current) (omega arith),
        take-drop-suc bs (suc current) k e,
        sum,
      )

  turns_append :
      (j k current : ℕ)
      → turns h bs (j + k) current ≡ (
          let (middle, first) = turns h bs j current in
          let (last, second) = turns h bs k middle in (last, first ++ second))
  unfolding turns
  turns_append zero k current = rw zero-add
  turns_append (suc j) k current = rw (suc-add, turns_append j k (next h current bs).0)

  turns_wrap :
      (current : ℕ)
      → current < length bs
      → turns h bs (suc current) (length bs - 1) ≡ (current, map some (take (suc current) bs))
  turns_wrap current lt =
      let (b, e) = lt-get_elem? bs 0 (omega arith) in
      let at : (length bs - 1 + 1) % length bs ≡ 0 =
        mod-eq-sub-mod {n = length bs - 1 + 1} (omega arith)
        ∙ (ap (λ t. t % length bs) (omega arith) ∙ mod-eq_of_lt (omega arith)) in
      let split : take (suc current) bs ≡ b ∷ take current (drop 1 bs) =
        take-drop-suc bs 0 current e in
      turns-suc current (length bs - 1) (omega arith) (ap (get_elem? bs) at ∙ e)
      ∙ rw (at, turns_straight current 0 (omega arith), zero-add, split)

  -- While every backend is alive and there are fewer than 2 ^ 63 of them, a run of as many calls as
  -- there are backends picks each in turn: from the one after the last pick to the end of the list,
  -- then from its head up to the last pick. It leaves the counter where it was.
  pub turns_rotate :
      (current : ℕ)
      → current < length bs
      → turns h bs (length bs) current
        ≡ (current, map some (drop (suc current) bs ++ take (suc current) bs))
  turns_rotate current lt =
      let j = length bs - suc current in
      let whole : length bs ≡ j + suc current = omega arith in
      let last : current + j ≡ length bs - 1 = omega arith in
      ap (λ t. turns h bs t current) whole
      ∙ (turns_append j (suc current) current
          ∙ rw (
            turns_straight j current (omega arith),
            take-drop_all bs j (suc current) (omega arith),
            last,
            turns_wrap current lt,
            map-append,
          ))
