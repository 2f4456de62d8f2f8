-- ===== src/Base/Lists.antt =====
-- Lists measured and indexed by native numbers, under the library's names, and predicates on lists.
use Prim.Native.Nat.{ℕ, zero, suc, ◌+◌, ◌<◌}
use mathlib.Core.Path.{◌≡◌, refl, ap, subst}
use mathlib.Core.Bool.{Bool}
use mathlib.Core.List.{List, [], ◌∷◌, ◌++◌}
use mathlib.Core.Option.{Option, none, some}
use native.Mathlib.Omega.{arith}
use go_lb.Base.Tests.{if◌then◌else◌}

module _ {ℓ} {A : Type ℓ} where
  abbrev pub length : List A → ℕ
  length [] = 0
  length (x ∷ xs) = suc (length xs)

  abbrev pub get_elem? : List A → ℕ → Option A
  get_elem? [] i = none
  get_elem? (x ∷ xs) zero = some x
  get_elem? (x ∷ xs) (suc i) = get_elem? xs i

  -- `filter` by a Boolean test, as a loop that appends what passes.
  abbrev pub filterb : (A → Bool) → List A → List A
  filterb p [] = []
  filterb p (x ∷ xs) = if p x then x ∷ filterb p xs else filterb p xs

  abbrev pub All {κ} : (A → Type κ) → List A → Type κ
  All P [] = Unit
  All P (x ∷ xs) = P x × All P xs

  -- Membership with the position kept.
  pub data In (a : A) : List A → Type ℓ where
    here : {xs : List A} → In a (a ∷ xs)
    there : {x : A} {xs : List A} → In a xs → In a (x ∷ xs)

  abbrev pub replicate : ℕ → A → List A
  replicate zero a = []
  replicate (suc n) a = a ∷ replicate n a

module _ {ℓ} {A : Type ℓ} where
  pub length-append : (xs ys : List A) → length (xs ++ ys) ≡ length xs + length ys
  length-append [] ys = omega arith
  length-append (x ∷ xs) ys = omega (arith, length-append xs ys)

  pub In-All {κ} : (P : A → Type κ) {a : A} (xs : List A) → All P xs → In a xs → P a
  In-All P [] h m = elim m [ ]
  In-All P (x ∷ xs) h here = h.0
  In-All P (x ∷ xs) h (there m) = In-All P xs h.1 m

  pub All-In {κ} : (P : A → Type κ) (xs : List A) → ((a : A) → In a xs → P a) → All P xs
  All-In P [] h = tt
  All-In P (x ∷ xs) h = (h x here, All-In P xs (λ a m. h a (there m)))

  pub All-append {κ} : (P : A → Type κ) (xs ys : List A) → All P xs → All P ys → All P (xs ++ ys)
  All-append P [] ys hx hy = hy
  All-append P (x ∷ xs) ys hx hy = (hx.0, All-append P xs ys hx.1 hy)

  pub get_elem?-lt : (xs : List A) (i : ℕ) {a : A} → get_elem? xs i ≡ some a → i < length xs
  get_elem?-lt [] i h = cc
  get_elem?-lt (x ∷ xs) zero h = omega arith
  get_elem?-lt (x ∷ xs) (suc i) h = omega (arith, get_elem?-lt xs i h)

  pub lt-get_elem? : (xs : List A) (i : ℕ) → i < length xs → (a : A) × (get_elem? xs i ≡ some a)
  lt-get_elem? [] i h = absurd (omega arith)
  lt-get_elem? (x ∷ xs) zero h = (x, refl)
  lt-get_elem? (x ∷ xs) (suc i) h = lt-get_elem? xs i (omega arith)

module _ {ℓ} {A : Type ℓ} where
  abbrev pub take : ℕ → List A → List A
  take zero xs = []
  take (suc n) [] = []
  take (suc n) (x ∷ xs) = x ∷ take n xs

  abbrev pub drop : ℕ → List A → List A
  drop zero xs = xs
  drop (suc n) [] = []
  drop (suc n) (x ∷ xs) = drop n xs

  pub take-drop-suc :
      (xs : List A) (s k : ℕ) {x : A}
      → get_elem? xs s ≡ some x
      → take (suc k) (drop s xs) ≡ x ∷ take k (drop (suc s) xs)
  take-drop-suc [] s k e = cc
  take-drop-suc (y ∷ xs) zero k e = ground arith
  take-drop-suc (y ∷ xs) (suc s) k e = take-drop-suc xs s k e

  pub take-drop_all : (xs : List A) (n s : ℕ) → n + s ≡ length xs → take n (drop s xs) ≡ drop s xs
  take-drop_all [] zero s e = ground arith
  take-drop_all [] (suc n) s e = absurd (omega arith)
  take-drop_all (x ∷ xs) zero zero e = absurd (omega arith)
  take-drop_all (x ∷ xs) (suc n) zero e = ap (◌∷◌ x) (take-drop_all xs n zero (omega arith))
  take-drop_all (x ∷ xs) n (suc s) e = take-drop_all xs n s (omega arith)

  pub In-get_elem? : (xs : List A) {a : A} → In a xs → (i : ℕ) × (get_elem? xs i ≡ some a)
  In-get_elem? [] m = elim m [ ]
  In-get_elem? (x ∷ xs) here = (0, refl)
  In-get_elem? (x ∷ xs) (there m) = let (i, e) = In-get_elem? xs m in (suc i, e)

  pub get_elem?-In : (xs : List A) (i : ℕ) {a : A} → get_elem? xs i ≡ some a → In a xs
  get_elem?-In [] i e = cc
  get_elem?-In (x ∷ xs) zero {a} e = subst (λ t. In t (x ∷ xs)) (cc) here
  get_elem?-In (x ∷ xs) (suc i) e = there (get_elem?-In xs i e)

  pub All-map {κ μ} :
      (P : A → Type κ) (Q : A → Type μ) (f : (a : A) → P a → Q a) (xs : List A)
      → All P xs
      → All Q xs
  All-map P Q f [] h = tt
  All-map P Q f (x ∷ xs) h = (f x h.0, All-map P Q f xs h.1)

  pub In-middle : (xs : List A) (a : A) (ys : List A) → In a (xs ++ a ∷ ys)
  In-middle [] a ys = here
  In-middle (x ∷ xs) a ys = there (In-middle xs a ys)
