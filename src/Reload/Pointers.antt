-- ===== src/Reload/Pointers.antt =====
-- internal/reload/reload.go: `byURL` of Apply, and what the loop over the changed backends does.
use go_lb.Base.{
  some-injective, String, ◌≡◌, refl, sym, ap, ◌∙◌, ◌≢◌, inl, inr, some, List, [], ◌∷◌, arith,
  eq_iff, ℕ_discrete, str_eq, if◌then◌else◌, Bool-cases, Option-cases, All, In, here, there, GoMap,
  empty_map, insert, insert_self,
}
use go_lb.Base.Int.{ℤ}
use go_lb.Backend.{Heap, Ref, url_of, set_weight}
use go_lb.Pool.{ServerPool, Distinct, backend_urls}
use go_lb.Config.{BackendConfig}
use go_lb.Reload.{set_weights, pool_by_url}
use go_lb.Reload.Sync.{has, urls}

unique :
    (h : Heap) (v : String) (bs : ServerPool) (m : GoMap Ref)
    → All (λ u. v ≢ u) (backend_urls h bs)
    → pool_by_url h bs m v ≡ m v
unfolding pool_by_url
unique h v [] m a = refl
unique h v (b ∷ bs) m a = unique h v bs _ a.1 ∙ ground (arith, eq_iff (url_of h b) v, a.0)

pub pool_by_url-In :
    (h : Heap) (bs : ServerPool) (m : GoMap Ref) (c : Ref)
    → Distinct (backend_urls h bs)
    → In c bs
    → pool_by_url h bs m (url_of h c) ≡ some c
unfolding pool_by_url
pool_by_url-In h [] m c d i = elim i [ ]
pool_by_url-In h (b ∷ bs) m c d here = unique h (url_of h b) bs _ d.0 ∙ insert_self m (url_of h b) b
pool_by_url-In h (b ∷ bs) m c d (there i) = pool_by_url-In h bs _ c d.1 i

-- A map of pointers by their own URLs.
abbrev pub OwnRefs : Heap → GoMap Ref → Type 0
OwnRefs h m = (u : String) (c : Ref) → m u ≡ some c → url_of h c ≡ u

insert-OwnRefs :
    (h : Heap) (m : GoMap Ref) (b : Ref) → OwnRefs h m → OwnRefs h (insert m (url_of h b) b)
insert-OwnRefs h m b own u c e = elim (Bool-cases (str_eq (url_of h b) u)) [
  | inl same ↦
      ap (url_of h) (sym (some-injective {a = b} {b = c} (sym (ground (arith, same)) ∙ e)))
      ∙ (eq_iff (url_of h b) u).0 same
  | inr other ↦ own u c (sym (ground (arith, other)) ∙ e)
]

pub pool_by_url-OwnRefs :
    (h : Heap) (bs : ServerPool) (m : GoMap Ref) → OwnRefs h m → OwnRefs h (pool_by_url h bs m)
unfolding pool_by_url
pool_by_url-OwnRefs h [] m own = own
pool_by_url-OwnRefs h (b ∷ bs) m own =
    pool_by_url-OwnRefs h bs (insert m (url_of h b) b) (insert-OwnRefs h m b own)

pub no_refs-OwnRefs : (h : Heap) → OwnRefs h empty_map
no_refs-OwnRefs h u c e = absurd (ground (arith, e))

-- One assignment of a weight, seen at one backend.
set_weight-at :
    (m : GoMap Ref) (bc : BackendConfig) (h : Heap) (c : Ref) (v : String)
    → m v ≡ some c
    → ((u : String) → m u ≡ some c → u ≡ v)
    → (set_weights m (bc ∷ []) h c).weight ≡ (if str_eq bc.url v then bc.weight else (h c).weight)
unfolding set_weights set_weight
set_weight-at m bc h c v at only = elim (Option-cases (m bc.url)) [
  | inl gone ↦ ground (arith, gone, at, eq_iff bc.url v)
  | inr (b, found) ↦ elim (ℕ_discrete b c) [
    | yes same ↦ ground (arith, found, same, only bc.url, eq_iff bc.url v)
    | no other ↦ ground (arith, found, other, at, eq_iff bc.url v)
  ]
]

-- What `set_weights` does to one backend that is known by its URL.
pub set_weights-weight :
    (m : GoMap Ref) (bcs : List BackendConfig) (h : Heap) (c : Ref) (v : String) (n : ℤ)
    → m v ≡ some c
    → ((u : String) → m u ≡ some c → u ≡ v)
    → All (λ bc. bc.url ≡ v → bc.weight ≡ n) bcs
    → (set_weights m bcs h c).weight ≡ (if has v (urls bcs) then n else (h c).weight)
unfolding set_weights
set_weights-weight m [] h c v n at only same = refl
set_weights-weight m (bc ∷ bcs) h c v n at only same =
    set_weights-weight m bcs _ c v n at only same.1
    ∙ ground (arith, set_weight-at m bc h c v at only, eq_iff bc.url v, same.0)
