-- ===== src/Main/Counted.antt =====
-- cmd/golb/main.go: nothing but a request counts connections, and nothing changes a backend's URL.
use go_lb.Base.{
  ◌≤◌, Bool-cases, Bool, sym, Result, String, ◌≡◌, refl, ap, ◌∙◌, subst, inl, inr, Option, List, [],
  ◌∷◌, arith, Option-cases, GoMap,
}
use go_lb.Base.Int.{ℤ, pos}
use go_lb.Backend.{Ref, Heap, Backend, Url, url_of, set_alive, set_weight, store}
use go_lb.Metrics.{Metrics}
use go_lb.Pool.{ServerPool, mark_backend_status}
use go_lb.Config.{BackendConfig}
use go_lb.Algo.{Algorithm}
use go_lb.Health.{Probe, Site, check_all, check_backend, healthy}
use go_lb.Health.Thresholds.{checked, check_backend-checked}
use go_lb.Admin.{Call, Server, Decoding, remove_url, set_alive_url, add_parsed, find, handle}
use go_lb.Admin.Keeps.{handle-Kept}
use go_lb.Reload.Apply.{apply-cases}
use go_lb.Health.{HealthChecker}
use go_lb.Health.Invariant.{Valid, update_config-Valid}
use go_lb.Reload.{
  update_health, apply, Running, Diff, add_backends, remove_backends, set_weights, mutate,
}

-- The connections that the heap counts, and that none is counted from a reference on.
abbrev pub Counts : (Ref → ℤ) → Heap → Type 0
Counts n h = (c : Ref) → (h c).active_conns ≡ n c

abbrev pub Fresh : (Ref → ℤ) → Ref → Type 0
Fresh n a = (c : Ref) → a ≤ c → n c ≡ pos 0

abbrev pub idle : Ref → ℤ
idle c = pos 0

module _ (n : Ref → ℤ) where
  set_alive-Counts : (h : Heap) (b : Ref) (up : Bool) → Counts n h → Counts n (set_alive h b up)
  unfolding set_alive
  set_alive-Counts h b up counts c = ground (arith, counts b, counts c)

  set_weight-Counts : (h : Heap) (b : Ref) (w : ℤ) → Counts n h → Counts n (set_weight h b w)
  unfolding set_weight
  set_weight-Counts h b w counts c = ground (arith, counts b, counts c)

  store-Counts :
      (h : Heap) (b : Ref) (x : Backend)
      → x.active_conns ≡ pos 0
      → n b ≡ pos 0
      → Counts n h
      → Counts n (store h b x)
  store-Counts h b x e none' counts c = ground (arith, counts c, e, none')

  mark-Counts :
      (h : Heap) (m : Metrics) (bs : ServerPool) (url : String) (up : Bool)
      → Counts n h
      → Counts n (mark_backend_status h m bs url up).0
  unfolding mark_backend_status
  mark-Counts h m [] url up counts c = counts c
  mark-Counts h m (b ∷ bs) url up counts c =
      ground (arith, set_alive-Counts h b up counts c, mark-Counts h m bs url up counts c)

checked-same :
    (b : Ref) (up : Bool) (s : Site) (c : Ref)
    → (((checked b up s).heap c).active_conns ≡ (s.heap c).active_conns)
      × (url_of (checked b up s).heap c ≡ url_of s.heap c)
unfolding set_alive
checked-same b up s c = ground arith

-- A round of probes opens no connection and changes no URL.
pub check_all-same :
    (probes : List (Ref × Probe)) (s : Site) (c : Ref)
    → (((check_all probes s).heap c).active_conns ≡ (s.heap c).active_conns)
      × (url_of (check_all probes s).heap c ≡ url_of s.heap c)
unfolding check_all
check_all-same [] s c = (refl, refl)
check_all-same ((b, p) ∷ rest) s c =
    let e = check_backend-checked b p s in
    let (conns, url) = checked-same b (healthy p) s c in
    let (conns', url') = check_all-same rest (check_backend b p s) c in
    (conns' ∙ ap (λ a. (a.heap c).active_conns) e ∙ conns, url' ∙ ap (λ a. url_of a.heap c) e ∙ url)

module _ (n : Ref → ℤ) (a : Ref) (fresh : Fresh n a) where
  -- More may be allocated, and no connection is opened.
  abbrev pub Grown : Heap → Ref → Type 0
  Grown h a' = (a ≤ a') × Counts n h

  set_alive_url-Grown :
      (url : String) (up : Bool) (s : Server)
      → Grown s.heap s.allocated
      → Grown (set_alive_url url up s).0.heap (set_alive_url url up s).0.allocated
  unfolding set_alive_url
  set_alive_url-Grown url up s (le, counts) = elim (Option-cases (find s.heap url s.pool)) [
    | inl e ↦ rw (e, set_alive_url) (le, counts)
    | inr (b, e) ↦
        rw (e, set_alive_url)
          (le, mark-Counts n s.heap s.metrics s.pool (url_of s.heap b) up counts)
  ]

  add_parsed-Grown :
      (u : Url) (w : ℤ) (s : Server)
      → Grown s.heap s.allocated
      → Grown (add_parsed u w s).0.heap (add_parsed u w s).0.allocated
  unfolding add_parsed
  add_parsed-Grown u w s (le, counts) =
      (ground arith, λ c. ground (arith, counts c, fresh s.allocated le))

  remove_url-same :
      (url : String) (s : Server)
      → ((remove_url url s).0.heap ≡ s.heap) × ((remove_url url s).0.allocated ≡ s.allocated)
  unfolding remove_url
  remove_url-same url s = ground arith

  -- A call of the admin API opens no connection.
  pub handle-Grown :
      (d : Decoding) (c : Call) (s : Server)
      → Grown s.heap s.allocated
      → Grown (handle d c s).0.heap (handle d c s).0.allocated
  handle-Grown d =
      handle-Kept d (λ s. Grown s.heap s.allocated)
        (record {
          adds = add_parsed-Grown;
          removes = λ url s g.
              let (e, e') = remove_url-same url s in (omega arith, subst (Counts n) (sym e) g.1);
          sets = set_alive_url-Grown;
        })

  add_backends-Grown :
      (bcs : List BackendConfig) (us : List (Url × ℤ)) (s : Running)
      → Grown s.heap s.allocated
      → Grown (add_backends bcs us s).heap (add_backends bcs us s).allocated
  unfolding add_backends
  add_backends-Grown [] us s g = g
  add_backends-Grown (bc ∷ bcs) [] s g = g
  add_backends-Grown (bc ∷ bcs) ((u, w) ∷ us) s (le, counts) =
      add_backends-Grown bcs us _
        (omega arith, store-Counts n s.heap s.allocated _ refl (fresh s.allocated le) counts)

  remove_backends-same :
      (urls : List String) (s : Running)
      → ((remove_backends urls s).heap ≡ s.heap)
        × ((remove_backends urls s).allocated ≡ s.allocated)
  unfolding remove_backends
  remove_backends-same [] s = (refl, refl)
  remove_backends-same (url ∷ urls) s = remove_backends-same urls _

  set_weights-Counts :
      (m : GoMap Ref) (bcs : List BackendConfig) (h : Heap)
      → Counts n h
      → Counts n (set_weights m bcs h)
  unfolding set_weights
  set_weights-Counts m [] h counts = counts
  set_weights-Counts m (bc ∷ bcs) h counts = elim (Option-cases (m bc.url)) [
    | inl e ↦ rw (e, set_weights) (set_weights-Counts m bcs h counts)
    | inr (b, e) ↦
        rw (e, set_weights) (set_weights-Counts m bcs _ (set_weight-Counts n h b bc.weight counts))
  ]

  mutate-Grown :
      (d : Diff) (us : List (Url × ℤ)) (al : Option Algorithm) (s : Running)
      → Grown s.heap s.allocated
      → Grown (mutate d us al s).heap (mutate d us al s).allocated
  unfolding mutate
  mutate-Grown d us al s g =
      let added = add_backends d.backends_added us s in
      let (le, counts) = add_backends-Grown d.backends_added us s g in
      let (e, e') = remove_backends-same d.backends_removed added in
      (omega arith, set_weights-Counts _ d.backends_changed _ (subst (Counts n) (sym e) counts))

  -- A reload opens no connection.
  pub apply-Grown :
      (parse : String → Result Url) (d : Diff) (s : Running)
      → Grown s.heap s.allocated
      → Grown (apply parse d s).0.heap (apply parse d s).0.allocated
  apply-Grown parse d s g = elim (apply-cases parse d s) [
    | inl (e, at) ↦ rw at g
    | inr (us, al, at, parsed) ↦ rw at (mutate-Grown d us al s g)
  ]

add_backends-checker :
    (bcs : List BackendConfig) (us : List (Url × ℤ)) (s : Running)
    → (add_backends bcs us s).checker ≡ s.checker
unfolding add_backends
add_backends-checker [] us s = refl
add_backends-checker (bc ∷ bcs) [] s = refl
add_backends-checker (bc ∷ bcs) ((u, w) ∷ us) s = add_backends-checker bcs us _

remove_backends-checker :
    (urls : List String) (s : Running) → (remove_backends urls s).checker ≡ s.checker
unfolding remove_backends
remove_backends-checker [] s = refl
remove_backends-checker (url ∷ urls) s = remove_backends-checker urls _

update_health-Valid : (d : Diff) (hc : HealthChecker) → Valid hc → Valid (update_health d hc)
unfolding update_health
update_health-Valid d hc v =
    let c = d.new_health_check in
    elim (Bool-cases d.health_changed) [
      | inl e ↦ subst Valid (sym (ground (arith, e))) (
          update_config-Valid hc c.path c.interval c.timeout c.unhealthy_threshold
            c.healthy_threshold v)
      | inr e ↦ subst Valid (sym (ground (arith, e))) v
    ]

mutate-Valid :
    (d : Diff) (us : List (Url × ℤ)) (a : Option Algorithm) (s : Running)
    → Valid s.checker
    → Valid (mutate d us a s).checker
unfolding mutate
mutate-Valid d us a s v = update_health-Valid d _ (
    subst Valid
      (sym
        (remove_backends-checker d.backends_removed _ ∙ add_backends-checker d.backends_added us s))
      v)

-- A reload leaves the checker's settings in order.
pub apply-Valid :
    (parse : String → Result Url) (d : Diff) (s : Running)
    → Valid s.checker
    → Valid (apply parse d s).0.checker
apply-Valid parse d s v = elim (apply-cases parse d s) [
  | inl (e, at) ↦ rw at v
  | inr (us, a, at, parsed) ↦ rw at (mutate-Valid d us a s v)
]
