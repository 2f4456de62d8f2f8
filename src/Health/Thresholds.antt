-- ===== src/Health/Thresholds.antt =====
-- internal/health/health.go: how many probes it takes to change a backend's status.
use go_lb.Metrics.{set_backend_up}
use go_lb.Backend.{Ref, url_of, is_alive, set_alive}
use go_lb.Health.{
  HealthChecker, check_backend, Site, record_success, consecutive_of, record_failure, Probe, turn,
  healthy, count, check_all,
}
use go_lb.Base.{
  ℕ, zero, suc, ◌+◌, ◌≤◌, ◌<◌, ◌≡◌, refl, sym, ap, ◌∙◌, subst, ◌≢◌, inl, inr, Bool, true, false,
  arith, if◌then◌else◌, Bool-cases, replicate, get_or, insert_self,
}
use go_lb.Base.Int.{ℤ, pos, negsuc, pos_part, neg_part, ◌+ℤ◌, ◌-ℤ◌, ltb_ℤ, leb_ℤ}

-- How many probes in a row went this way, up or down, since the last change or turn.
abbrev pub progress : Bool → ℤ → ℕ
progress true n = pos_part n
progress false n = neg_part n

abbrev pub threshold : Bool → HealthChecker → ℤ
threshold true hc = hc.healthy_threshold
threshold false hc = hc.unhealthy_threshold

abbrev pub signed : Bool → ℕ → ℤ
signed true n = pos n
signed false zero = pos 0
signed false (suc n) = negsuc n

-- The two records as one, over the probes in a row.
abbrev pub checked : Ref → Bool → Site → Site
checked b up s =
    let n = suc (progress up (consecutive_of s (url_of s.heap b))) in
    if leb_ℤ (threshold up s.checker) (pos n) then turn b up s else count b (signed up n) s

sum_up : (c : ℤ) → (if ltb_ℤ c (pos 0) then pos 0 else c) +ℤ pos 1 ≡ pos (suc (pos_part c))
unfolding ◌+ℤ◌
sum_up c = ground arith

sum_down : (c : ℤ) → (if ltb_ℤ (pos 0) c then pos 0 else c) -ℤ pos 1 ≡ negsuc (neg_part c)
unfolding ◌-ℤ◌
sum_down c = ground arith

minus_negsuc : (n : ℕ) → pos 0 -ℤ negsuc n ≡ pos (suc n)
unfolding ◌-ℤ◌
minus_negsuc n = ground arith

pub check_backend-checked :
    (b : Ref) (p : Probe) (s : Site) → check_backend b p s ≡ checked b (healthy p) s
unfolding check_backend record_success record_failure
check_backend-checked b p s = elim (Bool-cases (healthy p)) [
  | inl up ↦ rw (up, sum_up (consecutive_of s (url_of s.heap b)))
  | inr down ↦ rw (down, sum_down (consecutive_of s (url_of s.heap b)), minus_negsuc)
]

progress-signed : (up : Bool) (n : ℕ) → progress up (signed up n) ≡ n
progress-signed true n = λ i. n
progress-signed false zero = λ i. 0
progress-signed false (suc n) = λ i. suc n

threshold-count :
    (up : Bool) (b : Ref) (n : ℤ) (s : Site)
    → threshold up (count b n s).checker ≡ threshold up s.checker
threshold-count true b n s = refl
threshold-count false b n s = refl

progress-count :
    (up : Bool) (b : Ref) (n : ℕ) (s : Site)
    → progress up (consecutive_of (count b (signed up n) s) (url_of s.heap b)) ≡ n
progress-count up b n s =
    ap (λ o. progress up (get_or o (pos 0)))
      (insert_self s.checker.consecutive (url_of s.heap b) (signed up n))
    ∙ progress-signed up n

below : (c : ℤ) (t n : ℕ) → c ≡ pos t → n < t → leb_ℤ c (pos n) ≡ false
below c t n e lt = ground arith

reached : (c : ℤ) (n : ℕ) → c ≡ pos n → leb_ℤ c (pos n) ≡ true
reached c n e = ground arith

-- A probe short of the threshold only counts.
counts :
    (b : Ref) (p : Probe) (s : Site) (t : ℕ)
    → threshold (healthy p) s.checker ≡ pos t
    → suc (progress (healthy p) (consecutive_of s (url_of s.heap b))) < t
    → check_backend b p s
      ≡ count b
          (signed (healthy p) (suc (progress (healthy p) (consecutive_of s (url_of s.heap b)))))
          s
counts b p s t e lt =
    check_backend-checked b p s
    ∙ rw (
        below (threshold (healthy p) s.checker) t
          (suc (progress (healthy p) (consecutive_of s (url_of s.heap b)))) e lt)

fires :
    (b : Ref) (p : Probe) (s : Site)
    → threshold (healthy p) s.checker
      ≡ pos (suc (progress (healthy p) (consecutive_of s (url_of s.heap b))))
    → check_backend b p s ≡ turn b (healthy p) s
fires b p s e =
    check_backend-checked b p s
    ∙ rw (
        reached (threshold (healthy p) s.checker)
          (suc (progress (healthy p) (consecutive_of s (url_of s.heap b)))) e)

-- What a backend's streak leaves alone before it is long enough, and how far it is.
pub record Quiet (b : Ref) (up : Bool) (t k : ℕ) (s s' : Site) : Type 0 where
  pub heap : s'.heap ≡ s.heap
  pub metrics : s'.metrics ≡ s.metrics
  pub threshold_kept : threshold up s'.checker ≡ pos t
  pub further : progress up (consecutive_of s' (url_of s.heap b)) ≡ k

streak :
    (b : Ref) (p : Probe) (t n : ℕ) (s : Site)
    → threshold (healthy p) s.checker ≡ pos t
    → progress (healthy p) (consecutive_of s (url_of s.heap b)) + n < t
    → Quiet b
        (healthy p)
        t
        (progress (healthy p) (consecutive_of s (url_of s.heap b)) + n)
        s
        (check_all (replicate n (b, p)) s)
unfolding check_all
streak b p t zero s e lt = record {
  heap = refl;
  metrics = refl;
  threshold_kept = e;
  further = omega arith;
}
streak b p t (suc n) s e lt =
    let k = progress (healthy p) (consecutive_of s (url_of s.heap b)) in
    let s' = count b (signed (healthy p) (suc k)) s in
    let q =
      streak b p t n s' (threshold-count (healthy p) b (signed (healthy p) (suc k)) s ∙ e)
        (omega (arith, lt, progress-count (healthy p) b (suc k) s)) in
    subst (λ x. Quiet b (healthy p) t (k + suc n) s (check_all (replicate n (b, p)) x))
      (sym (counts b p s t e (omega arith)))
      record {
        heap = q.heap;
        metrics = q.metrics;
        threshold_kept = q.threshold_kept;
        further = omega (arith, q.further, progress-count (healthy p) b (suc k) s);
      }

-- What the probe that completes a streak does: the status is that of the probes, the metric says so,
-- the count starts again, and no other backend is touched.
pub record Turned (b : Ref) (up : Bool) (s s' : Site) : Type 0 where
  pub status : is_alive s'.heap b ≡ up
  pub others : (c : Ref) → c ≢ b → s'.heap c ≡ s.heap c
  pub metrics : s'.metrics ≡ set_backend_up s.metrics (url_of s.heap b) up
  pub afresh : consecutive_of s' (url_of s.heap b) ≡ pos 0

turn-Turned : (b : Ref) (up : Bool) (s : Site) → Turned b up s (turn b up s)
unfolding is_alive set_alive
turn-Turned b up s = record {
  status = ground arith;
  others = λ c n. ground arith;
  metrics = refl;
  afresh = ap (λ o. get_or o (pos 0)) (insert_self s.checker.consecutive (url_of s.heap b) (pos 0));
}

check_all-last :
    (b : Ref) (p : Probe) (n : ℕ) (s : Site)
    → check_all (replicate (suc n) (b, p)) s ≡ check_backend b p (check_all (replicate n (b, p)) s)
unfolding check_all
check_all-last b p zero s = refl
check_all-last b p (suc n) s = check_all-last b p n (check_backend b p s)

Quiet-Turned :
    {b : Ref} {up : Bool} {t k : ℕ} {s s' s'' : Site}
    → Quiet b up t k s s'
    → Turned b up s' s''
    → Turned b up s s''
Quiet-Turned {b} {up} {s = s} {s'} {s''} q f = record {
  status = f.status;
  others = λ c n. f.others c n ∙ ap (λ h. h c) q.heap;
  metrics = f.metrics ∙ (λ i. set_backend_up (q.metrics i) (url_of (q.heap i) b) up);
  afresh = subst (λ h. consecutive_of s'' (url_of h b) ≡ pos 0) q.heap f.afresh;
}

-- From any count on, exactly as many probes of one way as the threshold of that way still wants change
-- the status of their backend, and none before: short of that, no status and no metric changes; with
-- the last one the backend's status is that of the probes, the metric says so, the count starts
-- again and no other backend is touched.
pub streak_turns :
    (b : Ref) (p : Probe) (t n : ℕ) (s : Site)
    → threshold (healthy p) s.checker ≡ pos t
    → progress (healthy p) (consecutive_of s (url_of s.heap b)) + suc n ≡ t
    → ((m : ℕ)
        → m ≤ n
        → Quiet b
            (healthy p)
            t
            (progress (healthy p) (consecutive_of s (url_of s.heap b)) + m)
            s
            (check_all (replicate m (b, p)) s))
      × Turned b (healthy p) s (check_all (replicate (suc n) (b, p)) s)
streak_turns b p t n s e full =
    let up = healthy p in
    let quiet = streak b p t n s e (omega arith) in
    let s' = check_all (replicate n (b, p)) s in
    (
      λ m le. streak b p t m s e (omega arith),
      Quiet-Turned quiet (
          subst (Turned b up s')
            (sym (
              check_all-last b p n s
              ∙ fires b p s' (
                  quiet.threshold_kept
                  ∙ ap pos (
                      omega (
                        arith,
                        full,
                        quiet.further,
                        ap (λ h. progress up (consecutive_of s' (url_of h b))) quiet.heap,
                      )))))
            (turn-Turned b up s')),
    )
