-- ===== src/Reload/Weights.antt =====
-- internal/reload/reload.go: the weights of the pool after a reload.
use go_lb.Base.{
  ◌<◌, String, ◌≡◌, refl, sym, ap, ◌∙◌, subst, ◌⊎◌, inl, inr, true, Option, none, List, [], ◌∷◌,
  arith, if◌then◌else◌, Bool-cases, All, In, here, there, In-All, All-In, GoMap, empty_map,
  str_eq_refl, Result, All-map,
}
use go_lb.Base.Int.{ℤ}
use go_lb.Algo.{Algorithm}
use go_lb.Backend.{Url, Backend, Heap, Ref, url_of, store}
use go_lb.Pool.{ServerPool, has_url}
use go_lb.Pool.Laws.{add-All, remove-All}
use go_lb.Config.{BackendConfig, Config}
use go_lb.Reload.{
  Running, added_changed, compute_diff, add_backends, remove_backends, set_weights, pool_by_url,
  mutate, apply,
}
use go_lb.Reload.Apply.{
  Inv, apply-cases, set_weights-url, added-Inv, add_backends-Inv, remove_backends-Inv,
}
use go_lb.Reload.Diffs.{configured}
use go_lb.Reload.Sync.{
  has, urls, present, Keys, Synced, Plain, Texts, Own, by_url-Own, empty-Own, new_backend,
  added-Texts, apply-Synced,
}
use go_lb.Reload.Pointers.{pool_by_url-In, pool_by_url-OwnRefs, no_refs-OwnRefs, set_weights-weight}
use go_lb.Reload.Changes.{weight_at, added_changed-new, changed-has, differs-same}

-- The backends of the pool have the weights of the configuration.
abbrev pub Weighted : Heap → ServerPool → Config → Type 0
Weighted h pool cfg = All (λ c. (h c).weight ≡ weight_at (configured cfg (url_of h c))) pool

In-has_url : (h : Heap) (c : Ref) (bs : ServerPool) → In c bs → has_url h (url_of h c) bs ≡ true
unfolding has_url
In-has_url h c [] m = elim m [ ]
In-has_url h c (b ∷ bs) here = ground (arith, str_eq_refl (url_of h b))
In-has_url h c (b ∷ bs) (there m) = ground (arith, In-has_url h c bs m)

stored-old : (h : Heap) (a c : Ref) (b : Backend) → c < a → store h a b c ≡ h c
stored-old h a c b lt = ground arith

stored-new : (h : Heap) (a : Ref) (b : Backend) → store h a b a ≡ b
stored-new h a b = ground arith

-- What holds of the backends that are there, and of those that are made, holds of all.
module _ (G : Backend → Type 0) where
  add_backends-All :
      (bcs : List BackendConfig) (us : List (Url × ℤ)) (s : Running)
      → Inv s
      → Texts bcs us
      → All (λ bc. (u : Url) → u.text ≡ bc.url → G (new_backend u bc.weight)) bcs
      → All (λ c. G (s.heap c)) s.pool
      → All (λ c. G ((add_backends bcs us s).heap c)) (add_backends bcs us s).pool
  unfolding add_backends
  add_backends-All [] us s inv t made all = all
  add_backends-All (bc ∷ bcs) [] s inv t made all = absurd (ground (arith, t))
  add_backends-All (bc ∷ bcs) ((u, w) ∷ us) s inv t made all =
      add_backends-All bcs us _ (added-Inv s (new_backend u w) _ inv) t.1 made.1 (
        add-All _ _ s.pool s.allocated
          (All-In _ s.pool (λ c i.
            subst G
              (sym (
                stored-old s.heap s.allocated c (new_backend u w)
                  (In-All _ s.pool inv.allocated i)))
              (In-All _ s.pool all i)))
          (subst G (sym (stored-new s.heap s.allocated (new_backend u w)))
            (subst (λ x. G (new_backend u x)) (sym t.0.1) (made.0 u t.0.0))))

  remove_backends-All :
      (removed : List String) (s : Running)
      → All (λ c. G (s.heap c)) s.pool
      → All (λ c. G ((remove_backends removed s).heap c)) (remove_backends removed s).pool
  unfolding remove_backends
  remove_backends-All [] s all = all
  remove_backends-All (w ∷ ws) s all = remove_backends-All ws _ (remove-All _ s.heap w s.pool all)

-- A backend has the weight that one of the two maps holds at its URL; if it is the old one, that map
-- holds one.
abbrev Listed : GoMap BackendConfig → GoMap BackendConfig → Backend → Type 0
Listed old new b =
    ((b.weight ≡ weight_at (old b.url.text)) × (present (old b.url.text) ≡ true))
    ⊎ (b.weight ≡ weight_at (new b.url.text))

Listed-weight :
    (old new : GoMap BackendConfig) (keys : List String) (h h' : Heap) (c : Ref)
    → Own new
    → Keys keys new
    → Listed old new (h c)
    → present (new (url_of h c)) ≡ true
    → (h' c).weight ≡ (
        if has (url_of h c) (urls (added_changed old new keys).1)
        then weight_at (new (url_of h c))
        else (h c).weight)
    → (h' c).weight ≡ weight_at (new (url_of h c))
Listed-weight old new keys h h' c own all listed here' e =
    elim (Bool-cases (has (url_of h c) (urls (added_changed old new keys).1))) [
      | inl changed ↦ e ∙ rw changed refl
      | inr kept ↦ elim listed [
        | inr made ↦ e ∙ rw kept made
        | inl (was, there') ↦
            e
            ∙ rw kept (
                was
                ∙ differs-same (old (url_of h c)) (new (url_of h c)) there' here' (
                    ground (
                      arith,
                      kept,
                      all (url_of h c),
                      here',
                      changed-has old new keys (url_of h c) own,
                    )))
      ]
    ]

module _ (parse : String → Result Url) where
  mutate-Weighted :
      (old new : Config) (old_keys new_keys : List String) (us : List (Url × ℤ))
      (a : Option Algorithm) (s : Running)
      → Inv s
      → Keys new_keys (configured new)
      → let d = compute_diff old new old_keys new_keys in
        Texts d.backends_added us
        → All (λ c. Listed (configured old) (configured new) (s.heap c)) s.pool
        → Synced (mutate d us a s).heap (mutate d us a s).pool new
        → Weighted (mutate d us a s).heap (mutate d us a s).pool new
  unfolding mutate compute_diff
  mutate-Weighted old new old_keys new_keys us a s inv new_k t listed synced =
      let d = compute_diff old new old_keys new_keys in
      let o = configured old in
      let n = configured new in
      let own = by_url-Own new.pool.backends empty_map empty-Own in
      let (added, changed) = added_changed-new o n new_keys own in
      let s1 = add_backends d.backends_added us s in
      let s2 = remove_backends d.backends_removed s1 in
      let inv2 =
        remove_backends-Inv d.backends_removed s1 (add_backends-Inv d.backends_added us s inv) in
      let made =
        All-map _ (λ bc. (u : Url) → u.text ≡ bc.url → Listed o n (new_backend u bc.weight))
          (λ bc e u t. inr (sym (ap weight_at (ap n t ∙ e)))) d.backends_added added in
      let listed2 =
        remove_backends-All (Listed o n) d.backends_removed s1
          (add_backends-All (Listed o n) d.backends_added us s inv t made listed) in
      let m = pool_by_url s2.heap s2.pool empty_map in
      let h' = set_weights m d.backends_changed s2.heap in
      All-In _ s2.pool (λ c i.
        let v = url_of s2.heap c in
        let same = set_weights-url m d.backends_changed s2.heap c in
        let weights =
          set_weights-weight m d.backends_changed s2.heap c v (weight_at (n v))
            (pool_by_url-In s2.heap s2.pool empty_map c inv2.distinct i)
            (λ u e.
              sym (pool_by_url-OwnRefs s2.heap s2.pool empty_map (no_refs-OwnRefs s2.heap) u c e))
            (All-map _ (λ bc. bc.url ≡ v → bc.weight ≡ weight_at (n v))
              (λ bc e q. sym (ap weight_at (ap n (sym q) ∙ e))) d.backends_changed changed) in
        let here' : present (n v) ≡ true =
          ap (λ x. present (n x)) (sym same)
          ∙ (sym (synced (url_of h' c)) ∙ In-has_url h' c s2.pool i) in
        Listed-weight o n new_keys s2.heap h' c own new_k (In-All _ s2.pool listed2 i) here' weights
        ∙ ap (λ x. weight_at (n x)) (sym same))

  -- A reload that is made, of a pool that has the URLs and the weights of the old configuration,
  -- leaves the pool with the weights of the new one: those that are added, those that are changed and
  -- those that stay.
  pub apply-Weighted :
      (old new : Config) (old_keys new_keys : List String) (s : Running)
      → Plain parse new
      → Keys old_keys (configured old)
      → Keys new_keys (configured new)
      → Inv s
      → Synced s.heap s.pool old
      → Weighted s.heap s.pool old
      → let s' = apply parse (compute_diff old new old_keys new_keys) s in
        s'.1 ≡ none → Weighted s'.0.heap s'.0.pool new
  apply-Weighted old new old_keys new_keys s plain old_k new_k inv synced weighted made =
      let d = compute_diff old new old_keys new_keys in
      let after =
        apply-Synced parse old new old_keys new_keys s plain old_k new_k inv synced made in
      elim (apply-cases parse d s) [
        | inl (e, at) ↦ absurd (ground (arith, at, made))
        | inr (us, a, at, parsed) ↦
            subst (λ x. Weighted x.0.heap x.0.pool new) (sym at)
              (mutate-Weighted old new old_keys new_keys us a s inv new_k
                (added-Texts parse old new old_keys new_keys us plain parsed)
                (All-In _ s.pool (λ c i. inl (
                  In-All _ s.pool weighted i,
                  sym (synced (url_of s.heap c)) ∙ In-has_url s.heap c s.pool i,
                )))
                (subst (λ x. Synced x.0.heap x.0.pool new) at after))
      ]
