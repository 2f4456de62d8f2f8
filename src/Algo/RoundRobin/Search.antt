-- ===== src/Algo/RoundRobin/Search.antt =====
-- internal/algo/round_robin.go: which backend one call picks.
use go_lb.Base.{
  ℕ, zero, suc, ◌+◌, ◌-◌, ◌%◌, ◌<◌, ◌≡◌, sym, ap, ◌∙◌, subst, inl, inr, true, false, Option, none,
  some, List, [], ◌∷◌, arith, dec_lt, if◌then◌else◌, Bool-cases, length, get_elem?, In,
  get_elem?-lt, lt-get_elem?, In-get_elem?,
}
use native.Mathlib.Nat.{mod-eq_of_lt, mod-eq-sub-mod, mod-lt}
use go_lb.Backend.{Ref, Heap, is_alive}
use go_lb.Algo.RoundRobin.{u64, scan, next}

-- The backend at an index counted round the list is dead.
abbrev pub DeadAt : Heap → List Ref → ℕ → Type 0
DeadAt h bs i = (b : Ref) × (get_elem? bs (i % length bs) ≡ some b) × (is_alive h b ≡ false)

-- What the search finds from round `i` on: the first live backend after dead ones, or none.
pub data Found (h : Heap) (bs : List Ref) (start i k : ℕ) : Option (ℕ × Ref) → Type 0 where
  hit :
      (d : ℕ) (idx : ℕ) (b : Ref)
      → d < k
      → idx ≡ (start + (i + d)) % length bs
      → get_elem? bs idx ≡ some b
      → is_alive h b ≡ true
      → ((j : ℕ) → j < d → DeadAt h bs (start + (i + j)))
      → Found h bs start i k (some (idx, b))
  miss : ((j : ℕ) → j < k → DeadAt h bs (start + (i + j))) → Found h bs start i k none

shift-Dead :
    (h : Heap) (bs : List Ref) (start i d : ℕ)
    → DeadAt h bs (start + i)
    → ((j : ℕ) → j < d → DeadAt h bs (start + (i + 1 + j)))
    → (j : ℕ) → j < suc d
    → DeadAt h bs (start + (i + j))
shift-Dead h bs start i d now later zero lt = subst (λ t. DeadAt h bs (start + t)) (omega arith) now
shift-Dead h bs start i d now later (suc j) lt =
    subst (λ t. DeadAt h bs (start + t)) (omega arith) (later j (omega arith))

later-Found :
    (h : Heap) (bs : List Ref) (start i k : ℕ) {r : Option (ℕ × Ref)}
    → DeadAt h bs (start + i)
    → Found h bs start (i + 1) k r
    → Found h bs start i (suc k) r
later-Found h bs start i k now (hit d idx b lt at e live dead) =
    hit (suc d) idx b (omega arith) (at ∙ ap (λ t. (start + t) % length bs) (omega arith)) e live
      (shift-Dead h bs start i d now dead)
later-Found h bs start i k now (miss dead) = miss (shift-Dead h bs start i k now dead)

scan-suc :
    (h : Heap) (bs : List Ref) (start k i : ℕ) (b : Ref)
    → get_elem? bs ((start + i) % length bs) ≡ some b
    → scan h bs start (suc k) i
      ≡ (if is_alive h b then some ((start + i) % length bs, b) else scan h bs start k (i + 1))
unfolding scan
scan-suc h bs start k i b e = ground arith

pub scan-Found :
    (h : Heap) (bs : List Ref) (start k i : ℕ)
    → 0 < length bs
    → Found h bs start i k (scan h bs start k i)
unfolding scan
scan-Found h bs start zero i pos = miss (λ j lt. absurd (omega arith))
scan-Found h bs start (suc k) i pos =
    let (b, e) = lt-get_elem? bs ((start + i) % length bs) (grind arith) in
    elim (Bool-cases (is_alive h b)) [
      | inl live ↦
          subst (Found h bs start i (suc k)) (sym (scan-suc h bs start k i b e ∙ rw live)) (
            hit 0 _ b (omega arith) (ap (λ t. (start + t) % length bs) (omega arith)) e live
              (λ j lt. absurd (omega arith)))
      | inr dead ↦
          subst (Found h bs start i (suc k)) (sym (scan-suc h bs start k i b e ∙ rw dead))
            (later-Found h bs start i k (b, e, dead) (scan-Found h bs start k (i + 1) pos))
    ]

-- What one call of `Next` does, on every branch: it picks the first live backend, `d` places round
-- the list from the one after the last pick, and keeps its index; or all of them are dead.
pub data Picked (h : Heap) (bs : List Ref) (current : ℕ) : ℕ × Option Ref → Type 0 where
  picked :
      (d : ℕ) (idx : ℕ) (b : Ref)
      → d < length bs
      → idx ≡ (u64 (current + 1) % length bs + d) % length bs
      → get_elem? bs idx ≡ some b
      → is_alive h b ≡ true
      → ((j : ℕ) → j < d → DeadAt h bs (u64 (current + 1) % length bs + j))
      → Picked h bs current (idx, some b)
  exhausted :
      (current' : ℕ)
      → ((b : Ref) → In b bs → is_alive h b ≡ false)
      → Picked h bs current (current', none)

-- Every index is met on the way round.
round_trip : (s i n : ℕ) → s < n → i < n → (j : ℕ) × (j < n) × ((s + j) % n ≡ i)
round_trip s i n ls li = elim (dec_lt i s) [
  | yes before ↦ (
    i + n - s,
    omega arith,
    (ap (λ t. t % n) (omega arith) ∙ mod-eq-sub-mod {n = i + n} (omega arith))
        ∙ (ap (λ t. t % n) (omega arith) ∙ mod-eq_of_lt li),
  )
  | no after ↦ (i - s, omega arith, (ap (λ t. t % n) (omega arith) ∙ mod-eq_of_lt li))
]

all_dead :
    (h : Heap) (bs : List Ref) (s : ℕ)
    → s < length bs
    → ((j : ℕ) → j < length bs → DeadAt h bs (s + (0 + j)))
    → (b : Ref) → In b bs
    → is_alive h b ≡ false
all_dead h bs s ls dead b m =
    let (i, e) = In-get_elem? bs m in
    let (j, lj, at) = round_trip s i (length bs) ls (get_elem?-lt bs i e) in
    let (c, ec, dc) = dead j lj in
    let same : get_elem? bs ((s + j) % length bs) ≡ some c =
      subst (λ t. get_elem? bs (t % length bs) ≡ some c) (omega arith) ec in
    let bc : some c ≡ some b = sym same ∙ (ap (get_elem? bs) at ∙ e) in
    subst (λ t. is_alive h t ≡ false) (cc) dc

Found-Picked :
    (h : Heap) (bs : List Ref) (current : ℕ) (r : Option (ℕ × Ref))
    → 0 < length bs
    → Found h bs (u64 (current + 1) % length bs) 0 (length bs) r
    → Picked h bs current
        (elim r [ none ↦ (u64 (current + 1), none) | some (idx, b) ↦ (idx, some b) ])
Found-Picked h bs current r pos (hit d idx b lt at e live dead) =
    picked d idx b lt (at ∙ ap (λ t. (u64 (current + 1) % length bs + t) % length bs) (omega arith))
      e live
      (λ j lj.
        subst (λ t. DeadAt h bs (u64 (current + 1) % length bs + t)) (omega arith) (dead j lj))
Found-Picked h bs current r pos (miss dead) = exhausted _ (all_dead h bs _ (mod-lt _ pos) dead)

next-nonempty :
    (h : Heap) (current : ℕ) (bs : List Ref)
    → 0 < length bs
    → next h current bs ≡ elim (scan h bs (u64 (current + 1) % length bs) (length bs) 0) [
      | none ↦ (u64 (current + 1), none)
      | some (idx, b) ↦ (idx, some b)
    ]
unfolding next
next-nonempty h current bs pos = ground arith

-- One call of `Next`, whatever the counter and the list: see `Picked`.
pub next-Picked : (h : Heap) (current : ℕ) (bs : List Ref) → Picked h bs current (next h current bs)
unfolding next
next-Picked h current [] = exhausted current (λ b m. elim m [ ])
next-Picked h current (x ∷ xs) =
    subst (Picked h (x ∷ xs) current) (sym (next-nonempty h current (x ∷ xs) (omega arith))) (
      Found-Picked h (x ∷ xs) current _ (omega arith) (
        scan-Found h (x ∷ xs) (u64 (current + 1) % length (x ∷ xs)) (length (x ∷ xs)) 0
          (omega arith)))
