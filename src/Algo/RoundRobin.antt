-- ===== src/Algo/RoundRobin.antt =====
-- internal/algo/round_robin.go. The counter is a uint64; a list has fewer than 2 ^ 63 elements, so
-- the conversions to `int` keep the value.
pub mod Search
pub mod Turns
use go_lb.Base.{
  ℕ, zero, suc, ◌+◌, ◌%◌, ◌^◌, Option, none, some, List, ◌==◌, if◌then◌else◌, length, get_elem?,
}
use go_lb.Backend.{Ref, Heap, is_alive}

abbrev pub u64 : ℕ → ℕ
u64 n = n % 2 ^ 64

-- The loop from round `i`, with `k` rounds left: the index and the backend of the first that is
-- alive. (An index out of range would be a panic; `Search` shows that there is none.)
unfoldable pub scan : Heap → List Ref → ℕ → ℕ → ℕ → Option (ℕ × Ref)
scan h bs start zero i = none
scan h bs start (suc k) i =
    let rest = scan h bs start k (i + 1) in
    let idx = (start + i) % length bs in
    elim (get_elem? bs idx) [ none ↦ none | some b ↦ if is_alive h b then some (idx, b) else rest ]

unfoldable pub next : Heap → ℕ → List Ref → ℕ × Option Ref
next h current bs =
    let n = length bs in
    let added = u64 (current + 1) in
    if n == 0
    then (current, none)
    else elim (scan h bs (added % n) n 0) [ none ↦ (added, none) | some (idx, b) ↦ (idx, some b) ]
