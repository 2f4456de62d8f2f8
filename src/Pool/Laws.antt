-- ===== src/Pool/Laws.antt =====
-- internal/pool/pool.go: the pool as a set of URLs.
use go_lb.Metrics.{Metrics, set_backend_up}
use go_lb.Base.{
  String, ◌≡◌, refl, ◌≢◌, inl, inr, Bool, false, not, ◌||◌, List, [], ◌∷◌, ◌++◌, arith, eq_iff,
  ◌==◌, str_eq, if◌then◌else◌, Bool-cases, filterb, All, In, here, there, In-All, All-append,
}
use go_lb.Backend.{Ref, Heap, url_of, set_alive}
use go_lb.Pool.{
  ServerPool, has_url, add_backend, backend_urls, Distinct, remove, mark_backend_status,
}

pub has_url-append :
    (h : Heap) (v : String) (bs : ServerPool) (b : Ref)
    → has_url h v (bs ++ b ∷ []) ≡ (has_url h v bs || str_eq (url_of h b) v)
unfolding has_url
has_url-append h v [] b = ground arith
has_url-append h v (x ∷ bs) b = ground (arith, has_url-append h v bs b)

has_url-false :
    (h : Heap) (v : String) (bs : ServerPool)
    → has_url h v bs ≡ false
    → All (λ u. u ≢ v) (backend_urls h bs)
unfolding has_url
has_url-false h v [] e = tt
has_url-false h v (b ∷ bs) e =
    (ground (arith, eq_iff (url_of h b) v), has_url-false h v bs (ground arith))

Distinct-append :
    (us : List String) (v : String) → Distinct us → All (λ u. u ≢ v) us → Distinct (us ++ v ∷ [])
Distinct-append [] v d n = (tt, tt)
Distinct-append (u ∷ us) v d n =
    (All-append _ us (v ∷ []) d.0 (n.0, tt), Distinct-append us v d.1 n.1)

urls-append :
    (h : Heap) (bs : ServerPool) (b : Ref)
    → backend_urls h (bs ++ b ∷ []) ≡ backend_urls h bs ++ url_of h b ∷ []
urls-append h [] b = refl
urls-append h (x ∷ bs) b = rw (urls-append h bs b)

-- A pool whose URLs are pairwise different has pairwise different URLs after `AddBackend`.
pub add_backend-Distinct :
    (h : Heap) (bs : ServerPool) (b : Ref)
    → Distinct (backend_urls h bs)
    → Distinct (backend_urls h (add_backend h bs b))
unfolding add_backend
add_backend-Distinct h bs b d = elim (Bool-cases (has_url h (url_of h b) bs)) [
  | inl old ↦ rw old d
  | inr new ↦
      rw (new, urls-append h bs b)
        (Distinct-append (backend_urls h bs) (url_of h b) d (has_url-false h _ bs new))
]

add_backend_twice :
    (h : Heap) (bs : ServerPool) (b c : Ref)
    → url_of h c ≡ url_of h b
    → add_backend h (add_backend h bs b) c ≡ add_backend h bs b
unfolding add_backend
add_backend_twice h bs b c e = ground (
  arith,
  eq_iff (url_of h b) (url_of h c),
  has_url-append h (url_of h c) bs b,
  has_url-append h (url_of h b) bs b,
)

-- After `AddBackend` the pool has the URLs it had and that of the new backend, and adding any
-- backend with that URL again changes nothing.
pub add_backend_lem :
    (h : Heap) (bs : ServerPool) (b c : Ref)
    → ((v : String) → has_url h v (add_backend h bs b) ≡ (has_url h v bs || str_eq (url_of h b) v))
      × (url_of h c ≡ url_of h b → add_backend h (add_backend h bs b) c ≡ add_backend h bs b)
unfolding add_backend
add_backend_lem h bs b c = (
  λ v. ground (arith, eq_iff (url_of h b) v, has_url-append h v bs b),
  add_backend_twice h bs b c,
)

filterb_every :
    (h : Heap) (v : String) (bs : ServerPool)
    → All (λ u. v ≢ u) (backend_urls h bs)
    → filterb (λ b. not (str_eq (url_of h b) v)) bs ≡ bs
filterb_every h v [] n = refl
filterb_every h v (b ∷ bs) n = ground (arith, eq_iff (url_of h b) v, filterb_every h v bs n.1)

-- `Remove` on a pool with pairwise different URLs: the backends with another URL stay, in their
-- order, and the answer says whether the URL was there.
pub remove_lem :
    (h : Heap) (v : String) (bs : ServerPool)
    → Distinct (backend_urls h bs)
    → remove h v bs ≡ (filterb (λ b. not (str_eq (url_of h b) v)) bs, has_url h v bs)
unfolding remove has_url
remove_lem h v [] d = refl
remove_lem h v (b ∷ bs) d =
    ground
      (arith, remove_lem h v bs d.1, eq_iff (url_of h b) v, filterb_every h (url_of h b) bs d.0)

filterb-All :
    (h : Heap) (p : Ref → Bool) (P : String → Type 0) (bs : ServerPool)
    → All P (backend_urls h bs)
    → All P (backend_urls h (filterb p bs))
filterb-All h p P [] a = tt
filterb-All h p P (b ∷ bs) a = elim (Bool-cases (p b)) [
  | inl e ↦ rw e (a.0, filterb-All h p P bs a.1)
  | inr e ↦ rw e (filterb-All h p P bs a.1)
]

filterb-Distinct :
    (h : Heap) (p : Ref → Bool) (bs : ServerPool)
    → Distinct (backend_urls h bs)
    → Distinct (backend_urls h (filterb p bs))
filterb-Distinct h p [] d = tt
filterb-Distinct h p (b ∷ bs) d = elim (Bool-cases (p b)) [
  | inl e ↦ rw e (filterb-All h p _ bs d.0, filterb-Distinct h p bs d.1)
  | inr e ↦ rw e (filterb-Distinct h p bs d.1)
]

-- `Remove` keeps the URLs of the pool pairwise different.
pub remove-Distinct :
    (h : Heap) (v : String) (bs : ServerPool)
    → Distinct (backend_urls h bs)
    → Distinct (backend_urls h (remove h v bs).0)
remove-Distinct h v bs d = rw (remove_lem h v bs d) (filterb-Distinct h _ bs d)

mark_other :
    (h : Heap) (m : Metrics) (v : String) (alive : Bool) (bs : ServerPool) (c : Ref)
    → url_of h c ≢ v
    → (mark_backend_status h m bs v alive).0 c ≡ h c
unfolding mark_backend_status set_alive
mark_other h m v alive [] c n = refl
mark_other h m v alive (b ∷ bs) c n =
    ground (arith, eq_iff (url_of h b) v, mark_other h m v alive bs c n)

pub In-url : (h : Heap) (c : Ref) (bs : ServerPool) → In c bs → In (url_of h c) (backend_urls h bs)
In-url h c [] m = elim m [ ]
In-url h c (b ∷ bs) here = here
In-url h c (b ∷ bs) (there m) = there (In-url h c bs m)

mark_hit :
    (h : Heap) (m : Metrics) (alive : Bool) (bs : ServerPool) (c : Ref)
    → Distinct (backend_urls h bs)
    → In c bs
    → mark_backend_status h m bs (url_of h c) alive
      ≡ (set_alive h c alive, set_backend_up m (url_of h c) alive)
unfolding mark_backend_status
mark_hit h m alive [] c d i = elim i [ ]
mark_hit h m alive (b ∷ bs) c d here = ground (arith, eq_iff (url_of h c) (url_of h c))
mark_hit h m alive (b ∷ bs) c d (there i) = ground (
  arith,
  eq_iff (url_of h b) (url_of h c),
  In-All _ (backend_urls h bs) d.0 (In-url h c bs i),
  mark_hit h m alive bs c d.1 i,
)

-- `MarkBackendStatus` at the URL of a backend of a pool with pairwise different URLs writes the
-- alive flag of that backend, leaves its other fields and every other backend as they were, and
-- passes the new status on to the metrics.
pub mark_backend_status_lem :
    (h : Heap) (m : Metrics) (alive : Bool) (bs : ServerPool) (b c : Ref)
    → Distinct (backend_urls h bs)
    → In b bs
    → let after = mark_backend_status h m bs (url_of h b) alive in
      (after.0 c ≡ (if b == c then record (h c) { alive = alive } else h c))
      × (after.1 ≡ set_backend_up m (url_of h b) alive)
unfolding set_alive
mark_backend_status_lem h m alive bs b c d i = rw (mark_hit h m alive bs b d i) (ground arith, refl)

-- `MarkBackendStatus` at a URL that is not in the pool changes nothing.
pub mark_backend_status_miss :
    (h : Heap) (m : Metrics) (v : String) (alive : Bool) (bs : ServerPool)
    → has_url h v bs ≡ false
    → mark_backend_status h m bs v alive ≡ (h, m)
unfolding mark_backend_status has_url
mark_backend_status_miss h m v alive [] e = refl
mark_backend_status_miss h m v alive (b ∷ bs) e =
    ground (arith, mark_backend_status_miss h m v alive bs)

pub urls-same :
    (h h' : Heap) (bs : ServerPool)
    → All (λ b. url_of h' b ≡ url_of h b) bs
    → backend_urls h' bs ≡ backend_urls h bs
urls-same h h' [] e = refl
urls-same h h' (b ∷ bs) e = λ i. e.0 i ∷ urls-same h h' bs e.1 i

pub remove-All :
    (P : Ref → Type 0) (h : Heap) (url : String) (bs : ServerPool)
    → All P bs
    → All P (remove h url bs).0
unfolding remove
remove-All P h url [] a = tt
remove-All P h url (b ∷ bs) a = elim (Bool-cases (str_eq (url_of h b) url)) [
  | inl e ↦ rw e (a.1)
  | inr e ↦ rw e (a.0, remove-All P h url bs a.1)
]

pub add-All :
    (P : Ref → Type 0) (h : Heap) (bs : ServerPool) (b : Ref)
    → All P bs
    → P b
    → All P (add_backend h bs b)
unfolding add_backend
add-All P h bs b a p = elim (Bool-cases (has_url h (url_of h b) bs)) [
  | inl e ↦ rw e a
  | inr e ↦ rw e (All-append P bs (b ∷ []) a (p, tt))
]

pub has_url-same :
    (h h' : Heap) (v : String) (bs : ServerPool)
    → All (λ b. url_of h' b ≡ url_of h b) bs
    → has_url h' v bs ≡ has_url h v bs
unfolding has_url
has_url-same h h' v [] e = refl
has_url-same h h' v (b ∷ bs) e = ground (arith, e.0, has_url-same h h' v bs e.1)
