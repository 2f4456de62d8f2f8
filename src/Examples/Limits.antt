-- ===== src/Examples/Limits.antt =====
-- internal/ratelimit: a bucket of two tokens, over whole numbers as the floats.
use go_lb.Base.{
  ℕ, ◌+◌, ◌-◌, ◌*◌, ◌/◌, ◌≡◌, refl, Bool, true, false, none, some, [], ◌∷◌, arith, ltb, leb,
  empty_map,
}
use go_lb.Base.Int.{ℤ, pos, pos_part}
use go_lb.RateLimit.{
  FloatOps, TokenBucket, RateLimiter, Readings, passed, too_many_requests, new_bucket, allow, limit,
  client_ip,
}
use go_lb.RateLimit.Bucket.{IsFloat64, asks, new_bucket-asks}
use go_lb.RateLimit.Limiter.{Inv, Answered, limit-Answered}

abbrev pub whole : FloatOps
whole = record {
  of_int = pos_part;
  of_seconds = λ n. n / 1_000_000_000;
  add = ◌+◌;
  sub = ◌-◌;
  mul = ◌*◌;
  div = ◌/◌;
  lt = ltb;
  le = leb;
  ceil = pos;
}

whole-IsFloat64 : IsFloat64 whole
whole-IsFloat64 = record {
  lt_irrefl = λ x. ground arith;
  sub_one = λ m x e. ground (arith, e);
  sub_exact = λ n fits. omega arith;
  add_zero = λ n fits. omega arith;
  lt_exact = λ m n a b. refl;
  le_exact = λ m n a b. refl;
}

abbrev bucket : TokenBucket
bucket = record { tokens = 1; max = 2; rate = 3; last_time = 0 }

new_bucket-asks_example :
    ((asks whole 2 7 (new_bucket whole 3 (pos 2) 7)).1 ≡ true ∷ true ∷ [])
    × ((allow whole 7 (asks whole 2 7 (new_bucket whole 3 (pos 2) 7)).0).1 ≡ false)
new_bucket-asks_example = new_bucket-asks whole whole-IsFloat64 3 2 7 (omega arith) refl

abbrev pub limiter : RateLimiter
limiter = record {
  global = none;
  per_ip = empty_map;
  rate = 3;
  burst = pos 2;
  per_ip_on = true;
  done = false;
}

pub limiter-Inv : Inv limiter
limiter-Inv = record { burst = omega arith; global = λ e. ground (arith, e) }

abbrev answer : Unit {0} → ℕ
answer _ = 200

abbrev pub readings : Readings
readings = record { seen = 7; made = 8; asked = 9 }

limit-Answered_example :
    (l' : RateLimiter) × (allowed : Bool) × Answered whole limiter "h" readings l' allowed
    × (allowed ≡ true
        → limit whole (λ s. some "h") "h:80" readings answer limiter ≡ some (l', passed 200))
    × (allowed ≡ false
        → (s : ℤ) × (limit whole (λ s. some "h") "h:80" readings answer limiter
            ≡ some (l', too_many_requests s)))
unfolding client_ip
limit-Answered_example =
    limit-Answered whole (λ s. some "h") "h:80" readings answer limiter limiter-Inv
