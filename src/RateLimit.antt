-- ===== src/RateLimit.antt =====
-- internal/ratelimit/ratelimit.go: the token buckets and the limiter over them. A float64 is its bit
-- pattern, and the operations on it are an argument; times are readings of the clock, in nanoseconds,
-- which does not go back.
pub mod Bucket
pub mod Limiter
use go_lb.Base.{
  ℕ, ◌-◌, ◌/◌, String, Bool, true, false, not, Option, none, some, ltb, if◌then◌else◌, GoMap,
  empty_map, insert, get_or, Result, ok, err,
}
use go_lb.Base.Int.{ℤ, pos, ltb_ℤ}
use go_lb.Config.{Float64}

-- What the code does with floats: conversions of an int and of a duration (`Seconds`), arithmetic,
-- `<` and `<=`, and `int(math.Ceil(x))`.
pub record FloatOps : Type 0 where
  pub of_int : ℤ → Float64
  pub of_seconds : ℕ → Float64
  pub add : Float64 → Float64 → Float64
  pub sub : Float64 → Float64 → Float64
  pub mul : Float64 → Float64 → Float64
  pub div : Float64 → Float64 → Float64
  pub lt : Float64 → Float64 → Bool
  pub le : Float64 → Float64 → Bool
  pub ceil : Float64 → ℤ

pub record TokenBucket : Type 0 where
  pub tokens : Float64
  pub max : Float64
  pub rate : Float64
  pub last_time : ℕ

-- `last_seen` is a Unix timestamp.
pub record Entry : Type 0 where
  pub bucket : TokenBucket
  pub last_seen : ℕ

-- `global` is a pointer, nil in the mode by address. `done` says whether its channel is closed.
pub record RateLimiter : Type 0 where
  pub global : Option TokenBucket
  pub per_ip : GoMap Entry
  pub rate : Float64
  pub burst : ℤ
  pub per_ip_on : Bool
  pub done : Bool

-- The three readings of the clock in one `Allow`: for the timestamp, for a new bucket, and in the
-- bucket.
pub record Readings : Type 0 where
  pub seen : ℕ
  pub made : ℕ
  pub asked : ℕ

abbrev pub unix : ℕ → ℕ
unix t = t / 1_000_000_000

-- What a request gets: the next handler's answer, or 429 with a `Retry-After`.
pub data Outcome {ℓ} (A : Type ℓ) : Type ℓ where
  passed : A → Outcome A
  too_many_requests : (retry_after : ℤ) → Outcome A

module _ (float : FloatOps) where
  abbrev pub one : Float64
  one = float.of_int (pos 1)

  abbrev pub none_left : Float64
  none_left = float.of_int (pos 0)

  unfoldable pub new_bucket : Float64 → ℤ → ℕ → TokenBucket
  new_bucket rate burst now = record {
    tokens = float.of_int burst;
    max = float.of_int burst;
    rate = rate;
    last_time = now;
  }

  -- The tokens after the refill.
  unfoldable pub refill : ℕ → TokenBucket → Float64
  refill now b =
      let t = float.add b.tokens (float.mul (float.of_seconds (now - b.last_time)) b.rate) in
      if float.lt b.max t then b.max else t

  unfoldable pub allow : ℕ → TokenBucket → TokenBucket × Bool
  allow now b =
      let t = refill now b in
      if float.le one t
      then (record b { tokens = float.sub t one; last_time = now }, true)
      else (record b { tokens = t; last_time = now }, false)

  unfoldable pub retry_after_seconds : TokenBucket → ℤ
  retry_after_seconds b =
      let deficit = float.sub one b.tokens in
      if float.le b.rate none_left
      then pos 1
      else if float.le deficit none_left
      then pos 1
      else float.ceil (float.div deficit b.rate)

  unfoldable pub new : Float64 → ℤ → Bool → ℕ → Result RateLimiter
  new rps burst per_ip now =
      if float.le rps none_left
      then err "ratelimit: requests_per_second must be > 0"
      else if ltb_ℤ burst (pos 1)
      then err "ratelimit: burst must be >= 1"
      else ok (record {
        global = if per_ip then none else some (new_bucket rps burst now);
        per_ip = empty_map;
        rate = rps;
        burst = burst;
        per_ip_on = per_ip;
        done = false;
      })

  -- The entry of an address, new if there is none, with its timestamp.
  unfoldable pub entry_of : RateLimiter → String → Readings → Entry
  entry_of l ip now =
      record (get_or (l.per_ip ip)
        (record { bucket = new_bucket l.rate l.burst now.made; last_seen = unix now.seen })) {
          last_seen = unix now.seen;
        }

  -- `none` is the panic on a nil pointer.
  unfoldable pub allow_ip : RateLimiter → String → Readings → Option (RateLimiter × Bool)
  allow_ip l ip now =
      if not l.per_ip_on
      then elim l.global [
        | none ↦ none
        | some b ↦
            let (b', answer) = allow now.asked b in some (record l { global = some b' }, answer)
      ]
      else (let e = entry_of l ip now in
          let (b', answer) = allow now.asked e.bucket in
          some (record l { per_ip = insert l.per_ip ip (record e { bucket = b' }) }, answer))

  unfoldable pub retry_after : RateLimiter → String → Option ℤ
  retry_after l ip =
      if not l.per_ip_on
      then elim l.global [ none ↦ none | some b ↦ some (retry_after_seconds b) ]
      else elim (l.per_ip ip) [ none ↦ some (pos 1) | some e ↦ some (retry_after_seconds e.bucket) ]

  -- `SplitHostPort` gives the host, or none for an error.
  unfoldable pub client_ip : (String → Option String) → String → String
  client_ip split remote_addr = get_or (split remote_addr) remote_addr

  -- One request through the middleware. `next` is what the next handler answers, if it is called.
  unfoldable pub limit {ℓ} :
      {A : Type ℓ}
      → (String → Option String)
      → String
      → Readings
      → (Unit {0} → A)
      → RateLimiter
      → Option (RateLimiter × Outcome A)
  limit split remote_addr now next l =
      let ip = if l.per_ip_on then client_ip split remote_addr else "" in
      elim (allow_ip l ip now) [
        | none ↦ none
        | some (l', true) ↦ some (l', passed (next tt))
        | some (l', false) ↦ elim (retry_after l' ip) [
          | none ↦ none
          | some seconds ↦ some (l', too_many_requests seconds)
        ]
      ]

-- `Stop`
unfoldable pub stop : RateLimiter → RateLimiter
stop l = record l { done = true }

-- A tick of `cleanup`: five minutes before now.
unfoldable pub evict : ℕ → RateLimiter → RateLimiter
evict now l = record l {
  per_ip = λ ip. elim (l.per_ip ip) [
    | none ↦ none
    | some e ↦ if ltb e.last_seen (unix (now - 300_000_000_000)) then none else some e
  ];
}
