-- ===== src/Reload/Changes.antt =====
-- internal/reload/reload.go: the backends of a difference and their weights.
use go_lb.Base.{
  String, ◌≡◌, ap, ◌∙◌, inl, inr, Bool, true, false, not, ◌&&◌, Option, none, some, List, [], ◌∷◌,
  arith, eq_iff, Bool-cases, Option-cases, All, GoMap,
}
use go_lb.Base.Int.{ℤ, pos}
use go_lb.Config.{BackendConfig}
use go_lb.Reload.{added_changed, eq_ℤ}
use go_lb.Reload.Sync.{has, urls, present, Own}

abbrev pub weight_at : Option BackendConfig → ℤ
weight_at none = pos 0
weight_at (some b) = b.weight

-- The changed and the added backends are those of the new map.
pub added_changed-new :
    (old new : GoMap BackendConfig) (keys : List String)
    → Own new
    → All (λ bc. new bc.url ≡ some bc) (added_changed old new keys).0
      × All (λ bc. new bc.url ≡ some bc) (added_changed old new keys).1
unfolding added_changed
added_changed-new old new [] own = (tt, tt)
added_changed-new old new (k ∷ ks) own = elim (Option-cases (new k)) [
  | inl gone ↦ rw (gone, added_changed) (added_changed-new old new ks own)
  | inr (b, kept) ↦
      let (added, changed) = added_changed-new old new ks own in
      let at : new b.url ≡ some b = ap new (own k b kept) ∙ kept in
      elim (Option-cases (old k)) [
        | inl fresh ↦ rw (kept, fresh, added_changed) ((at, added), changed)
        | inr (o, there') ↦ elim (Bool-cases (eq_ℤ o.weight b.weight)) [
          | inl same ↦ rw (kept, there', same, added_changed) (added, changed)
          | inr other ↦ rw (kept, there', other, added_changed) (added, (at, changed))
        ]
      ]
]

abbrev pub differs : Option BackendConfig → Option BackendConfig → Bool
differs none n = false
differs (some o) none = false
differs (some o) (some n) = not (eq_ℤ o.weight n.weight)

pub changed-has :
    (old new : GoMap BackendConfig) (keys : List String) (v : String)
    → Own new
    → has v (urls (added_changed old new keys).1) ≡ (has v keys && differs (old v) (new v))
unfolding added_changed
changed-has old new [] v own = ground arith
changed-has old new (k ∷ ks) v own = elim (Option-cases (new k)) [
  | inl gone ↦ ground (arith, gone, eq_iff k v, changed-has old new ks v own)
  | inr (b, kept) ↦ ground (arith, kept, own k b kept, eq_iff k v, changed-has old new ks v own)
]

pub differs-same :
    (o n : Option BackendConfig)
    → present o ≡ true
    → present n ≡ true
    → differs o n ≡ false
    → weight_at o ≡ weight_at n
differs-same none n p q e = absurd (ground (arith, p))
differs-same (some o) none p q e = absurd (ground (arith, q))
differs-same (some o) (some n) p q e = ground (arith, e)
