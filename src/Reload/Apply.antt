-- ===== src/Reload/Apply.antt =====
-- internal/reload/reload.go: what a reload does to the running parts.
use go_lb.Algo.{Algorithm}
use go_lb.Pool.Laws.{remove-Distinct, remove-All, urls-same, add_backend-Distinct, add-All}
use go_lb.Base.{
  length, ◌==◌, true, ◌⊎◌, suc, ◌<◌, String, ◌≡◌, refl, sym, ◌∙◌, subst, inl, inr, false, Option,
  none, some, List, [], ◌∷◌, arith, Bool-cases, Option-cases, All, All-In, GoMap, empty_map,
  All-map, Sum-cases, Result,
}
use go_lb.Base.Int.{ℤ}
use go_lb.Algo
use go_lb.Backend.{Url, Heap, Backend, Ref, set_weight, url_of, store}
use go_lb.Pool.{add_backend, Distinct, backend_urls}
use go_lb.Reload.{
  empty, update_health, unknown_algorithm, add_backends, remove_backends, mutate, apply, Running,
  parse_added, set_weights, Diff, Metrics, Refusal, pool_by_url,
}
use go_lb.Config.{BackendConfig}

-- The backends of the pool are allocated, and no two of them have the same URL.
pub record Inv (s : Running) : Type 0 where
  pub distinct : Distinct (backend_urls s.heap s.pool)
  pub allocated : All (λ b. b < s.allocated) s.pool

pub store-url : (h : Heap) (a c : Ref) (b : Backend) → c < a → url_of (store h a b) c ≡ url_of h c
store-url h a c b lt = ground arith

pub added-Inv :
    (s : Running) (b : Backend) (m : Metrics)
    → Inv s
    → Inv (record s {
      heap = store s.heap s.allocated b;
      allocated = suc s.allocated;
      pool = add_backend (store s.heap s.allocated b) s.pool s.allocated;
      metrics = m;
    })
added-Inv s b m v = record {
  distinct = add_backend-Distinct (store s.heap s.allocated b) s.pool s.allocated (
      subst Distinct
        (sym (
          urls-same s.heap (store s.heap s.allocated b) s.pool
            (All-map _ _ (λ c lt. store-url s.heap s.allocated c b lt) s.pool v.allocated)))
        v.distinct);
  allocated =
      add-All _ (store s.heap s.allocated b) s.pool s.allocated
        (All-map _ _ (λ c lt. omega arith) s.pool v.allocated) (omega arith);
}

pub add_backends-Inv :
    (bcs : List BackendConfig) (us : List (Url × ℤ)) (s : Running)
    → Inv s
    → Inv (add_backends bcs us s)
unfolding add_backends
add_backends-Inv [] us s v = v
add_backends-Inv (bc ∷ bcs) [] s v = v
add_backends-Inv (bc ∷ bcs) ((u, weight) ∷ us) s v = add_backends-Inv bcs us _ (added-Inv s _ _ v)

pub remove_backends-Inv : (urls : List String) (s : Running) → Inv s → Inv (remove_backends urls s)
unfolding remove_backends
remove_backends-Inv [] s v = v
remove_backends-Inv (url ∷ urls) s v = remove_backends-Inv urls _ (record {
  distinct = remove-Distinct s.heap url s.pool v.distinct;
  allocated = remove-All _ s.heap url s.pool v.allocated;
})

pub set_weights-url :
    (m : GoMap Ref) (bcs : List BackendConfig) (h : Heap) (c : Ref)
    → url_of (set_weights m bcs h) c ≡ url_of h c
unfolding set_weights set_weight
set_weights-url m [] h c = refl
set_weights-url m (bc ∷ bcs) h c = elim (Option-cases (m bc.url)) [
  | inl e ↦ rw e (set_weights-url m bcs h c)
  | inr (b, e) ↦ rw e (set_weights-url m bcs _ c ∙ ground arith)
]

mutate-Inv :
    (d : Diff) (us : List (Url × ℤ)) (a : Option Algorithm) (s : Running)
    → Inv s
    → Inv (mutate d us a s)
unfolding mutate
mutate-Inv d us a s v =
    let s' = remove_backends d.backends_removed (add_backends d.backends_added us s) in
    let v' = remove_backends-Inv d.backends_removed _ (add_backends-Inv d.backends_added us s v) in
    let pointers = pool_by_url s'.heap s'.pool empty_map in
    let heap' = set_weights pointers d.backends_changed s'.heap in
    record {
      distinct =
          subst Distinct
            (sym (
              urls-same s'.heap heap' s'.pool
                (All-In _ s'.pool (λ c _. set_weights-url pointers d.backends_changed s'.heap c))))
            v'.distinct;
      allocated = v'.allocated;
    }

is_empty-nil {ℓ} : {A : Type ℓ} (xs : List A) → (length xs == 0) ≡ true → xs ≡ []
is_empty-nil [] e = refl
is_empty-nil (x ∷ xs) e = absurd (ground (arith, e))

mutate-empty :
    (d : Diff) (s : Running)
    → d.backends_added ≡ []
    → d.backends_removed ≡ []
    → d.backends_changed ≡ []
    → d.health_changed ≡ false
    → mutate d [] none s ≡ s
unfolding mutate add_backends remove_backends set_weights update_health
mutate-empty d s added removed changed health = ground (arith, added, removed, changed, health)

module _ (parse : String → Result Url) where
  -- A reload either is refused, with the state as it was, or is made.
  pub apply-cases :
      (d : Diff) (s : Running)
      → ((e : Refusal) × (apply parse d s ≡ (s, some e)))
        ⊎ ((us : List (Url × ℤ)) × (a : Option Algorithm) × (apply parse d s
              ≡ (mutate d us a s, none))
            × (parse_added parse d.backends_added ≡ inr us))
  unfolding apply
  apply-cases d s = elim (Sum-cases (parse_added parse d.backends_added)) [
    | inl (e, at) ↦ inl (e, rw (at, apply))
    | inr (us, at) ↦ elim (Bool-cases d.algorithm_changed) [
      | inr same ↦ inr (us, none, ground (arith, at, same), at)
      | inl changed ↦ elim (Option-cases (Algo.new d.new_algorithm)) [
        | inl unknown ↦
            inl (unknown_algorithm d.new_algorithm, ground (arith, at, changed, unknown))
        | inr (a, known) ↦ inr (us, some a, ground (arith, at, changed, known), at)
      ]
    ]
  ]

  parse_added-nil : (bcs : List BackendConfig) → bcs ≡ [] → parse_added parse bcs ≡ inr []
  unfolding parse_added
  parse_added-nil bcs e = rw e

  -- A reload with nothing to do does nothing.
  pub apply-empty : (d : Diff) (s : Running) → empty d ≡ true → apply parse d s ≡ (s, none)
  unfolding apply empty
  apply-empty d s e =
      let added = is_empty-nil d.backends_added (ground (arith, e)) in
      let removed = is_empty-nil d.backends_removed (ground (arith, e)) in
      let changed = is_empty-nil d.backends_changed (ground (arith, e)) in
      let same = mutate-empty d s added removed changed (ground (arith, e)) in
      ground (arith, parse_added-nil d.backends_added added, e, same)

  -- A reload that is refused has changed nothing; one that is not refused keeps the backends of the
  -- pool allocated and their URLs pairwise different, if they were so.
  pub apply-Inv :
      (d : Diff) (s : Running)
      → Inv s
      → ((e : Refusal) → (apply parse d s).1 ≡ some e → (apply parse d s).0 ≡ s)
        × Inv (apply parse d s).0
  apply-Inv d s v = elim (apply-cases d s) [
    | inl (e, at) ↦ rw at (λ e' r. refl, v)
    | inr (us, a, at, parsed) ↦ rw at (λ e' r. ground (arith, r), mutate-Inv d us a s v)
  ]
