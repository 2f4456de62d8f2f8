-- ===== src/RateLimit/Bucket.antt =====
-- internal/ratelimit/ratelimit.go: how many requests a token bucket lets through.
use go_lb.Base.{
  ℕ, zero, suc, ◌-◌, ◌^◌, ◌≤◌, ◌<◌, ◌≡◌, refl, ap, Bool, true, false, List, [], ◌∷◌, arith, ltb,
  leb, replicate,
}
use go_lb.Base.Int.{pos}
use go_lb.Config.{Float64}
use go_lb.RateLimit.{FloatOps, TokenBucket, one, none_left, new_bucket, refill, allow}

-- What IEEE 754 says of the operations: a comparison with itself, taking 1 from what is not above a
-- bound, and the integers up to 2 ^ 53, which are exact.
pub record IsFloat64 (float : FloatOps) : Type 0 where
  pub lt_irrefl : (x : Float64) → float.lt x x ≡ false
  pub sub_one :
      (m x : Float64) → float.lt m x ≡ false → float.lt m (float.sub x (one float)) ≡ false
  pub sub_exact :
      (n : ℕ)
      → n < 2 ^ 53
      → float.sub (float.of_int (pos (suc n))) (one float) ≡ float.of_int (pos n)
  pub add_zero :
      (n : ℕ)
      → n ≤ 2 ^ 53
      → float.add (float.of_int (pos n)) (none_left float) ≡ float.of_int (pos n)
  pub lt_exact :
      (m n : ℕ)
      → m ≤ 2 ^ 53
      → n ≤ 2 ^ 53
      → float.lt (float.of_int (pos m)) (float.of_int (pos n)) ≡ ltb m n
  pub le_exact :
      (m n : ℕ)
      → m ≤ 2 ^ 53
      → n ≤ 2 ^ 53
      → float.le (float.of_int (pos m)) (float.of_int (pos n)) ≡ leb m n

-- `n` calls at one reading of the clock, and what they answer.
pub asks : FloatOps → ℕ → ℕ → TokenBucket → TokenBucket × List Bool
asks float zero now b = (b, [])
asks float (suc n) now b =
    let (b', answer) = allow float now b in
    let (last, answers) = asks float n now b' in (last, answer ∷ answers)

module _ (float : FloatOps) (laws : IsFloat64 float) where
  refill-max : (now : ℕ) (b : TokenBucket) → float.lt b.max (refill float now b) ≡ false
  unfolding refill
  refill-max now b = ground (arith, laws.lt_irrefl b.max)

  -- A bucket never holds more than its size: no call lifts it above, whatever time has passed.
  pub allow-max :
      (now : ℕ) (b : TokenBucket)
      → (float.lt b.max (allow float now b).0.tokens ≡ false) × ((allow float now b).0.max ≡ b.max)
  unfolding allow
  allow-max now b =
      let full = refill-max now b in
      ground (arith, full, laws.sub_one b.max (refill float now b) full)

  -- A bucket of size `m` that holds `n` tokens and was asked last at `now`.
  record Holds (now m n : ℕ) (b : TokenBucket) : Type 0 where
    pub size : b.max ≡ float.of_int (pos m)
    pub left : b.tokens ≡ float.of_int (pos n)
    pub last : b.last_time ≡ now
    pub still : float.mul (float.of_seconds 0) b.rate ≡ none_left float

  refill-Holds :
      (now m n : ℕ) (b : TokenBucket)
      → n ≤ m
      → m ≤ 2 ^ 53
      → Holds now m n b
      → refill float now b ≡ float.of_int (pos n)
  unfolding refill
  refill-Holds now m n b le fits h =
      let none_passed : now - b.last_time ≡ 0 = omega (arith, h.last) in
      let below : ltb m n ≡ false = ground arith in
      rw (
        none_passed,
        h.still,
        h.left,
        h.size,
        laws.add_zero n (omega arith),
        laws.lt_exact m n fits (omega arith),
        below,
      )

  allow-granted :
      (now m n : ℕ) (b : TokenBucket)
      → suc n ≤ m
      → m ≤ 2 ^ 53
      → Holds now m (suc n) b
      → allow float now b ≡ (record b { tokens = float.of_int (pos n); last_time = now }, true)
  unfolding allow
  allow-granted now m n b le fits h =
      let enough : leb 1 (suc n) ≡ true = ground arith in
      rw (
        refill-Holds now m (suc n) b le fits h,
        laws.le_exact 1 (suc n) (omega arith) (omega arith),
        enough,
        laws.sub_exact n (omega arith),
      )

  allow-refused :
      (now m : ℕ) (b : TokenBucket) → m ≤ 2 ^ 53 → Holds now m 0 b → (allow float now b).1 ≡ false
  unfolding allow
  allow-refused now m b fits h =
      rw
        (refill-Holds now m 0 b (omega arith) fits h, laws.le_exact 1 0 (omega arith) (omega arith))

  burst_from :
      (now m n : ℕ) (b : TokenBucket)
      → n ≤ m
      → m ≤ 2 ^ 53
      → Holds now m n b
      → ((asks float n now b).1 ≡ replicate n true)
        × ((allow float now (asks float n now b).0).1 ≡ false)
  unfolding asks
  burst_from now m zero b le fits h = (refl, allow-refused now m b fits h)
  burst_from now m (suc n) b le fits h =
      let rest =
        burst_from now m n (record b { tokens = float.of_int (pos n); last_time = now })
          (omega arith) fits
          (record { size = h.size; left = refl; last = refl; still = h.still }) in
      rw (allow-granted now m n b le fits h) (ap (◌∷◌ true) rest.0, rest.1)

  -- A new bucket of `n` tokens lets exactly `n` requests through at one reading of the clock: each of
  -- the first `n` calls answers true, and the next one false. The rate has to be one that zero
  -- seconds of give nothing, as every finite one is.
  pub new_bucket-asks :
      (rate : Float64) (n now : ℕ)
      → n ≤ 2 ^ 53
      → float.mul (float.of_seconds 0) rate ≡ none_left float
      → let b = new_bucket float rate (pos n) now in
        ((asks float n now b).1 ≡ replicate n true)
        × ((allow float now (asks float n now b).0).1 ≡ false)
  unfolding new_bucket
  new_bucket-asks rate n now fits still =
      burst_from now n n _ (omega arith) fits
        (record { size = refl; left = refl; last = refl; still = still })
