-- ===== src/RateLimit/Limiter.antt =====
-- internal/ratelimit/ratelimit.go: the limiter and its middleware.
use go_lb.Base.{
  ok-injective, ℕ, ◌+◌, ◌≤◌, ◌<◌, String, ◌≡◌, refl, sym, ◌∙◌, subst, ◌≢◌, ◌⊎◌, inl, inr, Bool,
  true, false, Option, none, some, arith, eq_iff, if◌then◌else◌, Bool-cases, Option-cases,
  empty_map, insert, get_or, str_eq_refl, ok, err,
}
use go_lb.Base.Int.{ℤ, pos, ◌≤ℤ◌, ◌<ℤ◌, ltb_ℤ}
use go_lb.Config.{Float64}
use go_lb.RateLimit.{
  FloatOps, TokenBucket, Entry, RateLimiter, Readings, unix, passed, too_many_requests, none_left,
  new, new_bucket, entry_of, allow, allow_ip, retry_after, retry_after_seconds, client_ip, limit,
  evict,
}

-- The global bucket is there in the mode that uses it.
pub record Inv (l : RateLimiter) : Type 0 where
  pub burst : pos 1 ≤ℤ l.burst
  pub global : l.per_ip_on ≡ false → (b : TokenBucket) × (l.global ≡ some b)

module _ (float : FloatOps) where
  new_burst :
      (rps : Float64) (burst : ℤ) (per_ip : Bool) (now : ℕ)
      → (float.le rps (none_left float) ≡ true) ⊎ (burst ≤ℤ pos 0)
      → float.le rps (none_left float) ≡ false
      → new float rps burst per_ip now ≡ err "ratelimit: burst must be >= 1"
  unfolding new
  new_burst rps burst per_ip now (inl low) high = absurd (ground (arith, low, high))
  new_burst rps burst per_ip now (inr few) high = ground arith

  -- `New` fails if the rate or the burst is not positive, and gives a limiter that has what its mode
  -- needs otherwise.
  pub new-Inv :
      (rps : Float64) (burst : ℤ) (per_ip : Bool) (now : ℕ)
      → ((float.le rps (none_left float) ≡ true) ⊎ (burst ≤ℤ pos 0)
          → (e : String) × (new float rps burst per_ip now ≡ err e))
        × (float.le rps (none_left float) ≡ false
            → pos 0 <ℤ burst
            → (l : RateLimiter) × (new float rps burst per_ip now ≡ ok l) × Inv l)
  unfolding new
  new-Inv rps burst per_ip now = (
    (λ bad. elim (Bool-cases (float.le rps (none_left float))) [
      | inl low ↦ ("ratelimit: requests_per_second must be > 0", rw low)
      | inr high ↦ ("ratelimit: burst must be >= 1", new_burst rps burst per_ip now bad high)
    ]),
    (λ high many. (
      record {
        global = if per_ip then none else some (new_bucket float rps burst now);
        per_ip = empty_map;
        rate = rps;
        burst = burst;
        per_ip_on = per_ip;
        done = false;
      },
      ground arith,
      record {
        burst = omega arith;
        global = λ off. (new_bucket float rps burst now, ground arith);
      },
    )),
  )

  pub new-ok :
      (rps : Float64) (burst : ℤ) (per_ip : Bool) (now : ℕ) (l : RateLimiter)
      → new float rps burst per_ip now ≡ ok l
      → Inv l
  new-ok rps burst per_ip now l e =
      let (fails, gives) = new-Inv rps burst per_ip now in
      elim (Bool-cases (float.le rps (none_left float))) [
        | inl low ↦ let (m, bad) = fails (inl low) in absurd (ground (arith, e, bad))
        | inr high ↦ elim (Bool-cases (ltb_ℤ (pos 0) burst)) [
          | inr few ↦
              let (m, bad) = fails (inr (ground (arith, few))) in absurd (ground (arith, e, bad))
          | inl many ↦
              let (l', made, v) = gives high (ground (arith, many)) in
              subst Inv (ok-injective (sym made ∙ e)) v
        ]
      ]

  -- The bucket that answers for an address.
  abbrev pub bucket_of : RateLimiter → String → Readings → TokenBucket
  bucket_of l ip now =
      if l.per_ip_on
      then (entry_of float l ip now).bucket
      else get_or l.global (new_bucket float l.rate l.burst now.made)

  -- One call of `Allow`: it does not panic, its answer is that of the bucket of the address, and in
  -- the mode by address no other address is touched.
  pub record Answered (l : RateLimiter) (ip : String) (now : Readings) (l' : RateLimiter)
      (answer : Bool) : Type 0 where
    pub inv : Inv l'
    pub mode : l'.per_ip_on ≡ l.per_ip_on
    pub answered : answer ≡ (allow float now.asked (bucket_of l ip now)).1
    pub spent :
        (later : Readings) → bucket_of l' ip later ≡ (allow float now.asked (bucket_of l ip now)).0
    pub others : l.per_ip_on ≡ true → (v : String) → v ≢ ip → l'.per_ip v ≡ l.per_ip v

  spent_ip :
      (l : RateLimiter) (ip : String) (now later : Readings)
      → l.per_ip_on ≡ true
      → let e = entry_of float l ip now in
        bucket_of
          (record l {
            per_ip = insert l.per_ip ip (record e { bucket = (allow float now.asked e.bucket).0 });
          })
          ip
          later
        ≡ (allow float now.asked (bucket_of l ip now)).0
  unfolding entry_of
  spent_ip l ip now later on = ground (arith, on, str_eq_refl ip)

  allow_ip-Answered :
      (l : RateLimiter) (ip : String) (now : Readings)
      → Inv l
      → (a : RateLimiter × Bool) × (allow_ip float l ip now ≡ some a) × Answered l ip now a.0 a.1
  unfolding allow_ip
  allow_ip-Answered l ip now v = elim (Bool-cases l.per_ip_on) [
    | inl on ↦
        let e = entry_of float l ip now in
        let after = (allow float now.asked e.bucket).0 in
        (
          (
            record l { per_ip = insert l.per_ip ip (record e { bucket = after }) },
            (allow float now.asked e.bucket).1,
          ),
          ground (arith, on),
          record {
            inv = record { burst = v.burst; global = λ off. absurd (ground (arith, on, off)) };
            mode = refl;
            answered = ground (arith, on);
            spent = λ later. spent_ip l ip now later on;
            others = λ _ u n. ground (arith, eq_iff ip u);
          },
        )
    | inr off ↦
        let (b, at) = v.global off in
        (
          (record l { global = some (allow float now.asked b).0 }, (allow float now.asked b).1),
          ground (arith, off, at),
          record {
            inv = record { burst = v.burst; global = λ _. ((allow float now.asked b).0, refl) };
            mode = refl;
            answered = ground (arith, off, at);
            spent = λ later. ground (arith, off, at);
            others = λ on u n. refl;
          },
        )
  ]

  retry_after-some :
      (l : RateLimiter) (ip : String) → Inv l → (s : ℤ) × (retry_after float l ip ≡ some s)
  unfolding retry_after
  retry_after-some l ip v = elim (Bool-cases l.per_ip_on) [
    | inl on ↦ elim (Option-cases (l.per_ip ip)) [
      | inl new' ↦ (pos 1, ground (arith, on, new'))
      | inr (e, at) ↦ (retry_after_seconds float e.bucket, ground (arith, on, at))
    ]
    | inr off ↦ let (b, at) = v.global off in (retry_after_seconds float b, ground (arith, off, at))
  ]

  -- A request through the middleware: it does not panic; it is passed on exactly if the bucket of its
  -- address, or the global one, has a token, and is answered 429 otherwise; and what it takes comes
  -- from that bucket alone.
  pub limit-Answered {ℓ} :
      {A : Type ℓ} (split : String → Option String) (addr : String) (now : Readings)
      (next : Unit {0} → A) (l : RateLimiter)
      → Inv l
      → let ip = if l.per_ip_on then client_ip float split addr else "" in
        (l' : RateLimiter) × (answer : Bool) × Answered l ip now l' answer
        × (answer ≡ true → limit float split addr now next l ≡ some (l', passed (next tt)))
        × (answer ≡ false
            → (s : ℤ) × (limit float split addr now next l ≡ some (l', too_many_requests s)))
  unfolding limit
  limit-Answered split addr now next l v =
      let ip = if l.per_ip_on then client_ip float split addr else "" in
      let (a, returned, answered) = allow_ip-Answered l ip now v in
      let (s, rest) = retry_after-some a.0 ip answered.inv in
      (
        a.0,
        a.1,
        answered,
        λ yes'. ground (arith, returned, yes'),
        λ no'. (s, ground (arith, returned, no', rest)),
      )

pub evict-Inv : (now : ℕ) (l : RateLimiter) → Inv l → Inv (evict now l)
unfolding evict
evict-Inv now l v = record { burst = v.burst; global = v.global }

-- An entry stays over a tick of the cleanup if its address was seen in the last 300 seconds, and goes
-- if not; then its address has a new bucket.
pub evict_lem :
    (now : ℕ) (l : RateLimiter) (ip : String) (e : Entry)
    → l.per_ip ip ≡ some e
    → (unix now ≤ e.last_seen + 300 → (evict now l).per_ip ip ≡ some e)
      × (e.last_seen + 300 < unix now → (evict now l).per_ip ip ≡ none)
unfolding evict
evict_lem now l ip e at = (λ late. ground (arith, at, late), λ late. ground (arith, at, late))
