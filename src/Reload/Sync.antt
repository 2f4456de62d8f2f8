-- ===== src/Reload/Sync.antt =====
-- internal/reload/reload.go: the URLs of the pool before and after a reload.
use go_lb.Base.{
  All, In, here, there, In-All, Bool-cases, refl, Result-cases, Sum-cases, ok, subst, All-In,
  Result, inr, inl, empty_map, ◌≡◌, sym, none, All-map, ap, ◌∙◌, insert, String, Bool, true, false,
  not, ◌&&◌, ◌||◌, Option, some, List, [], ◌∷◌, map, arith, eq_iff, str_eq, Option-cases, filterb,
  GoMap,
}
use go_lb.Base.Int.{ℤ, pos}
use go_lb.Algo.{Algorithm}
use go_lb.Backend.{Backend, Url, Heap, Ref, url_of, store}
use go_lb.Pool.{ServerPool, has_url, remove, add_backend, Distinct, backend_urls}
use go_lb.Pool.Laws.{has_url-same, remove_lem, add_backend_lem, remove-Distinct, remove-All}
use go_lb.Config.{BackendConfig, Config}
use go_lb.Reload.{
  Running, Diff, eq_ℤ, by_url, added_changed, removed, compute_diff, add_backends, remove_backends,
  mutate, parse_added, apply,
}
use go_lb.Reload.Apply.{Inv, apply-cases, set_weights-url, added-Inv, add_backends-Inv, store-url}
use go_lb.Reload.Diffs.{configured}

-- Whether a text is in a list.
abbrev pub has : String → List String → Bool
has v [] = false
has v (u ∷ us) = str_eq u v || has v us

abbrev pub present {ℓ} : {A : Type ℓ} → Option A → Bool
present none = false
present (some a) = true

abbrev pub urls : List BackendConfig → List String
urls = map (λ bc. bc.url)

-- The list holds the keys of the map.
abbrev pub Keys : List String → GoMap BackendConfig → Type 0
Keys keys m = (v : String) → has v keys ≡ present (m v)

-- The pool has the URLs of the configuration.
abbrev pub Synced : Heap → ServerPool → Config → Type 0
Synced h pool cfg = (v : String) → has_url h v pool ≡ present (configured cfg v)

-- Once parsed, each URL of the configuration prints as its text there.
abbrev pub Plain : (String → Result Url) → Config → Type 0
Plain parse cfg =
    All (λ text. (u : Url) → parse text ≡ ok u → u.text ≡ text) (urls cfg.pool.backends)

pub by_url-present :
    (bcs : List BackendConfig) (m : GoMap BackendConfig) (v : String)
    → present (by_url bcs m v) ≡ (present (m v) || has v (urls bcs))
unfolding by_url
by_url-present [] m v = ground arith
by_url-present (c ∷ cs) m v = by_url-present cs _ v ∙ ground arith

has-In : (v : String) (us : List String) → has v us ≡ true → In v us
has-In v [] e = absurd (ground (arith, e))
has-In v (u ∷ us) e = elim (Bool-cases (str_eq u v)) [
  | inl same ↦ subst (λ x. In x (u ∷ us)) ((eq_iff u v).0 same) here
  | inr other ↦ there (has-In v us (ground (arith, e, other)))
]

-- What was parsed for a list of backends.
abbrev pub Texts : List BackendConfig → List (Url × ℤ) → Type 0
Texts [] us = Unit
Texts (bc ∷ bcs) [] = true ≡ false
Texts (bc ∷ bcs) ((u, w) ∷ us) = ((u.text ≡ bc.url) × (w ≡ bc.weight)) × Texts bcs us

abbrev pub new_backend : Url → ℤ → Backend
new_backend u w = record { url = u; weight = w; alive = true; active_conns = pos 0 }

stored-text :
    (h : Heap) (a : Ref) (u : Url) (w : ℤ) → url_of (store h a (new_backend u w)) a ≡ u.text
stored-text h a u w = ground arith

added-has_url :
    (s : Running) (u : Url) (w : ℤ) (v : String)
    → Inv s
    → let heap' = store s.heap s.allocated (new_backend u w) in
      has_url heap' v (add_backend heap' s.pool s.allocated)
      ≡ (has_url s.heap v s.pool || str_eq u.text v)
added-has_url s u w v inv =
    let heap' = store s.heap s.allocated (new_backend u w) in
    let same = has_url-same s.heap heap' v s.pool (
      All-map _ _ (λ c lt. store-url s.heap s.allocated c (new_backend u w) lt) s.pool
        inv.allocated) in
    (add_backend_lem heap' s.pool s.allocated 0).0 v
    ∙ (λ i. same i || str_eq (stored-text s.heap s.allocated u w i) v)

add_backends-has_url :
    (bcs : List BackendConfig) (us : List (Url × ℤ)) (s : Running) (v : String)
    → Inv s
    → Texts bcs us
    → has_url (add_backends bcs us s).heap v (add_backends bcs us s).pool
      ≡ (has_url s.heap v s.pool || has v (urls bcs))
unfolding add_backends
add_backends-has_url [] us s v inv t = ground arith
add_backends-has_url (bc ∷ bcs) [] s v inv t = absurd (ground (arith, t))
add_backends-has_url (bc ∷ bcs) ((u, w) ∷ us) s v inv t =
    add_backends-has_url bcs us _ v (added-Inv s (new_backend u w) _ inv) t.1
    ∙ ground (arith, added-has_url s u w v inv, t.0.0)

filterb-has_url :
    (h : Heap) (w v : String) (bs : ServerPool)
    → has_url h v (filterb (λ b. not (str_eq (url_of h b) w)) bs)
      ≡ (has_url h v bs && not (str_eq w v))
unfolding has_url
filterb-has_url h w v [] = ground arith
filterb-has_url h w v (b ∷ bs) =
    ground
      (arith, eq_iff (url_of h b) w, eq_iff (url_of h b) v, eq_iff w v, filterb-has_url h w v bs)

remove-has_url :
    (h : Heap) (w v : String) (bs : ServerPool)
    → Distinct (backend_urls h bs)
    → has_url h v (remove h w bs).0 ≡ (has_url h v bs && not (str_eq w v))
remove-has_url h w v bs d =
    ap (λ r. has_url h v r.0) (remove_lem h w bs d) ∙ filterb-has_url h w v bs

remove_backends-has_url :
    (removed : List String) (s : Running) (v : String)
    → Inv s
    → has_url (remove_backends removed s).heap v (remove_backends removed s).pool
      ≡ (has_url s.heap v s.pool && not (has v removed))
unfolding remove_backends
remove_backends-has_url [] s v inv = ground arith
remove_backends-has_url (w ∷ ws) s v inv =
    remove_backends-has_url ws _ v (record {
      distinct = remove-Distinct s.heap w s.pool inv.distinct;
      allocated = remove-All _ s.heap w s.pool inv.allocated;
    })
    ∙ ground (arith, remove-has_url s.heap w v s.pool inv.distinct)

-- A map of backends by their own URLs.
abbrev pub Own : GoMap BackendConfig → Type 0
Own m = (u : String) (b : BackendConfig) → m u ≡ some b → b.url ≡ u

insert-Own : (m : GoMap BackendConfig) (c : BackendConfig) → Own m → Own (insert m c.url c)
insert-Own m c own u b e = ground (arith, eq_iff c.url u, own u b, e)

pub by_url-Own : (bcs : List BackendConfig) (m : GoMap BackendConfig) → Own m → Own (by_url bcs m)
unfolding by_url
by_url-Own [] m own = own
by_url-Own (c ∷ cs) m own = by_url-Own cs (insert m c.url c) (insert-Own m c own)

added-has :
    (old new : GoMap BackendConfig) (keys : List String) (v : String)
    → Own new
    → has v (urls (added_changed old new keys).0)
      ≡ (has v keys && present (new v) && not (present (old v)))
unfolding added_changed
added-has old new [] v own = ground arith
added-has old new (k ∷ ks) v own = elim (Option-cases (new k)) [
  | inl gone ↦ ground (arith, gone, eq_iff k v, added-has old new ks v own)
  | inr (b, kept) ↦ ground (arith, kept, own k b kept, eq_iff k v, added-has old new ks v own)
]

-- What holds of the keys of the new map holds of the URLs that are added.
added-All :
    (P : String → Type 0) (old new : GoMap BackendConfig) (keys : List String)
    → Own new
    → ((v : String) → present (new v) ≡ true → P v)
    → All (λ bc. P bc.url) (added_changed old new keys).0
unfolding added_changed
added-All P old new [] own all = tt
added-All P old new (k ∷ ks) own all =
    let more = added-All P old new ks own all in
    elim (Option-cases (new k)) [
      | inl gone ↦ rw (gone, added_changed) more
      | inr (b, kept) ↦ elim (Option-cases (old k)) [
        | inl fresh ↦
            rw (kept, fresh, added_changed)
              (subst P (sym (own k b kept)) (all k (ap present kept)), more)
        | inr (o, known) ↦ elim (Bool-cases (eq_ℤ o.weight b.weight)) [
          | inl same ↦ rw (kept, known, same, added_changed) more
          | inr other ↦ rw (kept, known, other, added_changed) more
        ]
      ]
    ]

removed-has :
    (new : GoMap BackendConfig) (keys : List String) (v : String)
    → has v (removed new keys) ≡ (has v keys && not (present (new v)))
unfolding removed
removed-has new [] v = ground arith
removed-has new (k ∷ ks) v = ground (arith, eq_iff k v, removed-has new ks v)

pub empty-Own : Own empty_map
empty-Own u b e = absurd (ground (arith, e))

module _ (parse : String → Result Url) where
  parse_added-step :
      (bc : BackendConfig) (bcs : List BackendConfig) (us : List (Url × ℤ))
      → parse_added parse (bc ∷ bcs) ≡ inr us
      → (u : Url) × (rest : List (Url × ℤ)) × (parse bc.url ≡ ok u)
        × (parse_added parse bcs ≡ inr rest)
        × ((u, bc.weight) ∷ rest ≡ us)
  unfolding parse_added
  parse_added-step bc bcs us e = elim (Result-cases (parse bc.url)) [
    | inl (cause, bad) ↦ absurd (ground (arith, bad, e))
    | inr (u, good) ↦ elim (Sum-cases (parse_added parse bcs)) [
      | inl (refusal, at) ↦ absurd (ground (arith, good, at, e))
      | inr (rest, at) ↦ (u, rest, good, at, ground (arith, good, at, e))
    ]
  ]

  parse_added-Texts :
      (bcs : List BackendConfig) (us : List (Url × ℤ))
      → All (λ bc. (u : Url) → parse bc.url ≡ ok u → u.text ≡ bc.url) bcs
      → parse_added parse bcs ≡ inr us
      → Texts bcs us
  parse_added-Texts [] us plain e = tt
  parse_added-Texts (bc ∷ bcs) us plain e =
      let (u, rest, good, at, same) = parse_added-step bc bcs us e in
      subst (Texts (bc ∷ bcs)) same ((plain.0 u good, refl), parse_added-Texts bcs rest plain.1 at)

  pub added-Texts :
      (old new : Config) (old_keys new_keys : List String) (us : List (Url × ℤ))
      → Plain parse new
      → let d = compute_diff old new old_keys new_keys in
        parse_added parse d.backends_added ≡ inr us → Texts d.backends_added us
  unfolding compute_diff
  added-Texts old new old_keys new_keys us plain =
      let given = new.pool.backends in
      parse_added-Texts _ us (
        added-All (λ v. (u : Url) → parse v ≡ ok u → u.text ≡ v) (configured old) (configured new)
          new_keys (by_url-Own given empty_map empty-Own)
          (λ v e.
            In-All _ (urls given) plain
              (has-In v (urls given) (sym (by_url-present given empty_map v) ∙ e))))

  mutate-has_url :
      (d : Diff) (us : List (Url × ℤ)) (a : Option Algorithm) (s : Running) (v : String)
      → Inv s
      → Texts d.backends_added us
      → has_url (mutate d us a s).heap v (mutate d us a s).pool ≡ (
          (has_url s.heap v s.pool || has v (urls d.backends_added))
          && not (has v d.backends_removed))
  unfolding mutate
  mutate-has_url d us a s v inv t =
      let s1 = add_backends d.backends_added us s in
      let s2 = remove_backends d.backends_removed s1 in
      has_url-same s2.heap _ v s2.pool
        (All-In _ s2.pool (λ c _. set_weights-url _ d.backends_changed s2.heap c))
      ∙ (remove_backends-has_url d.backends_removed s1 v
            (add_backends-Inv d.backends_added us s inv)
          ∙ ap (λ x. x && not (has v d.backends_removed))
              (add_backends-has_url d.backends_added us s v inv t))

  -- A reload that is made, of a pool that has the URLs of the old configuration, leaves the pool with
  -- the URLs of the new one, where the URLs of the new one print as their texts and the orders of the keys are
  -- orders of the keys.
  pub apply-Synced :
      (old new : Config) (old_keys new_keys : List String) (s : Running)
      → Plain parse new
      → Keys old_keys (configured old)
      → Keys new_keys (configured new)
      → Inv s
      → Synced s.heap s.pool old
      → let s' = apply parse (compute_diff old new old_keys new_keys) s in
        s'.1 ≡ none → Synced s'.0.heap s'.0.pool new
  unfolding compute_diff
  apply-Synced old new old_keys new_keys s plain old_k new_k inv synced made v =
      let d = compute_diff old new old_keys new_keys in
      elim (apply-cases parse d s) [
        | inl (e, at) ↦ absurd (ground (arith, at, made))
        | inr (us, a, at, parsed) ↦
            ap (λ x. has_url x.0.heap v x.0.pool) at
            ∙ (mutate-has_url d us a s v inv (added-Texts old new old_keys new_keys us plain parsed)
                ∙ ground (
                  arith,
                  synced v,
                  old_k v,
                  new_k v,
                  added-has (configured old) (configured new) new_keys v
                      (by_url-Own new.pool.backends empty_map empty-Own),
                  removed-has (configured new) old_keys v,
                ))
      ]
