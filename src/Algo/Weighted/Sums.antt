-- ===== src/Algo/Weighted/Sums.antt =====
-- Sums over the backends of a list, for internal/algo/weighted_round_robin.go.
use go_lb.Base.{
  ℕ, ◌+◌, ◌*◌, ◌≤◌, ◌<◌, ◌≡◌, refl, ap, ◌≢◌, List, [], ◌∷◌, arith, ◌==◌, if◌then◌else◌, length, All,
  In, here, there, In-All, All-In,
}
use go_lb.Backend.{Ref, Heap, url_of}
use go_lb.Pool.{Distinct, backend_urls}
use go_lb.Pool.Laws.{In-url}

abbrev pub sum_by : (Ref → ℕ) → List Ref → ℕ
sum_by f [] = 0
sum_by f (b ∷ bs) = f b + sum_by f bs

pub sum_by_mono :
    (f g : Ref → ℕ) (bs : List Ref) → All (λ b. f b ≤ g b) bs → sum_by f bs ≤ sum_by g bs
sum_by_mono f g [] a = omega arith
sum_by_mono f g (b ∷ bs) a = omega (arith, sum_by_mono f g bs a.1, a.0)

-- Bounds that add up to the sum are met one by one.
pub sum_by-tight :
    (f g : Ref → ℕ) (bs : List Ref)
    → All (λ b. f b ≤ g b) bs
    → sum_by f bs ≡ sum_by g bs
    → All (λ b. f b ≡ g b) bs
sum_by-tight f g [] a e = tt
sum_by-tight f g (b ∷ bs) a e =
    let rest = sum_by_mono f g bs a.1 in
    (omega (arith, a.0), sum_by-tight f g bs a.1 (omega (arith, a.0)))

-- An equation between two sums of three at each backend holds of the totals.
pub sum_by-add :
    (f g k f' g' k' : Ref → ℕ) (bs : List Ref)
    → All (λ b. f b + g b + k b ≡ f' b + g' b + k' b) bs
    → sum_by f bs + sum_by g bs + sum_by k bs ≡ sum_by f' bs + sum_by g' bs + sum_by k' bs
sum_by-add f g k f' g' k' [] a = refl
sum_by-add f g k f' g' k' (b ∷ bs) a = omega (arith, a.0, sum_by-add f g k f' g' k' bs a.1)

pub sum_by-add_le :
    (f g k : Ref → ℕ) (bs : List Ref)
    → All (λ b. f b + g b ≤ k b) bs
    → sum_by f bs + sum_by g bs ≤ sum_by k bs
sum_by-add_le f g k [] a = omega arith
sum_by-add_le f g k (b ∷ bs) a = omega (arith, a.0, sum_by-add_le f g k bs a.1)

pub le-sum_by : (f : Ref → ℕ) (bs : List Ref) (b : Ref) → In b bs → f b ≤ sum_by f bs
le-sum_by f [] b m = elim m [ ]
le-sum_by f (b ∷ bs) c here = omega arith
le-sum_by f (b ∷ bs) c (there m) = omega (arith, le-sum_by f bs c m)

pub sum_by-le-mul :
    (f : Ref → ℕ) (k : ℕ) (bs : List Ref) → All (λ b. f b < k) bs → sum_by f bs ≤ length bs * k
sum_by-le-mul f k [] a = omega arith
sum_by-le-mul f k (b ∷ bs) a = omega (arith, a.0, sum_by-le-mul f k bs a.1)

pub sum_by-zero : (bs : List Ref) → sum_by (λ b. 0) bs ≡ 0
sum_by-zero [] = refl
sum_by-zero (b ∷ bs) = omega (arith, sum_by-zero bs)

pub sum_by-plus :
    (f g : Ref → ℕ) (bs : List Ref) → sum_by (λ b. f b + g b) bs ≡ sum_by f bs + sum_by g bs
sum_by-plus f g [] = refl
sum_by-plus f g (b ∷ bs) = omega (arith, sum_by-plus f g bs)

abbrev pub at : Ref → ℕ → Ref → ℕ
at c n b = if c == b then n else 0

pub mul-at : (c b n k : ℕ) → k * (n + at c 1 b) ≡ k * n + at c k b
mul-at c b n k = ground arith

sum_by-none : (c n : ℕ) (bs : List Ref) → All (λ b. c ≢ b) bs → sum_by (at c n) bs ≡ 0
sum_by-none c n [] a = refl
sum_by-none c n (b ∷ bs) a = ground (arith, a.0, sum_by-none c n bs a.1)

-- A pool with distinct URLs holds each pointer once.
pub sum_by-at :
    (h : Heap) (c n : ℕ) (bs : List Ref)
    → Distinct (backend_urls h bs)
    → In c bs
    → sum_by (at c n) bs ≡ n
sum_by-at h c n [] d m = elim m [ ]
sum_by-at h c n (b ∷ bs) d here = ground (arith, sum_by-none c n bs (All-In _ bs apart))
  where
    apart : (x : Ref) → In x bs → c ≢ x
    apart x m e = In-All _ (backend_urls h bs) d.0 (In-url h x bs m) (ap (url_of h) e)
sum_by-at h c n (b ∷ bs) d (there m) = ground (arith, sum_by-at h c n bs d.1 m, apart)
  where
    apart : b ≢ c
    apart e = In-All _ (backend_urls h bs) d.0 (In-url h c bs m) (ap (url_of h) e)
