-- ===== src/Admin/Invariant.antt =====
-- internal/admin/admin.go: what every request to the admin API keeps.
use go_lb.Metrics.{Metrics}
use go_lb.Pool.Laws.{remove-Distinct, add_backend-Distinct, remove-All, urls-same, add-All}
use go_lb.Pool.{
  remove, has_url, add_backend, mark_backend_status, Distinct, ServerPool, backend_urls,
}
use go_lb.Backend.{Heap, set_alive, Ref, url_of, Url}
use go_lb.Admin.{
  Server, remove_url, set_alive_url, add_parsed, find, new_backend, valid_url, weight_or_one,
  Decoding, handle, handle_all, Call,
}
use go_lb.Admin.Keeps.{Kept, handle-Kept}
use go_lb.Base.{
  suc, ◌<◌, String, ◌≡◌, refl, sym, subst, inl, inr, Bool, List, [], ◌∷◌, arith, Bool-cases,
  Option-cases, All, All-In, All-map,
}
use go_lb.Base.Int.{ℤ}

-- The backends of the pool are allocated, and no two of them have the same URL.
pub record Inv (s : Server) : Type 0 where
  pub distinct : Distinct (backend_urls s.heap s.pool)
  pub allocated : All (λ b. b < s.allocated) s.pool

mark-url :
    (h : Heap) (m : Metrics) (url : String) (alive : Bool) (bs : ServerPool) (c : Ref)
    → url_of (mark_backend_status h m bs url alive).0 c ≡ url_of h c
unfolding mark_backend_status set_alive
mark-url h m url alive [] c = refl
mark-url h m url alive (b ∷ bs) c = ground (arith, mark-url h m url alive bs c)

pub old-url :
    (s : Server) (u : Url) (w : ℤ) (b : Ref)
    → b < s.allocated
    → url_of (new_backend s u w).heap b ≡ url_of s.heap b
old-url s u w b lt = ground arith

remove_url-Inv : (url : String) (s : Server) → Inv s → Inv (remove_url url s).0
unfolding remove_url
remove_url-Inv url s v = elim (Bool-cases (remove s.heap url s.pool).1) [
  | inl e ↦ rw e (record {
    distinct = remove-Distinct s.heap url s.pool v.distinct;
    allocated = remove-All _ s.heap url s.pool v.allocated;
  })
  | inr e ↦ rw e v
]

set_alive_url-Inv :
    (url : String) (alive : Bool) (s : Server) → Inv s → Inv (set_alive_url url alive s).0
unfolding set_alive_url
set_alive_url-Inv url alive s v = elim (Option-cases (find s.heap url s.pool)) [
  | inl e ↦ rw (e, set_alive_url) v
  | inr (b, e) ↦
      rw (e, set_alive_url)
        (record {
          distinct =
              subst Distinct
                (sym (
                  urls-same s.heap
                    (mark_backend_status s.heap s.metrics s.pool (url_of s.heap b) alive).0 s.pool
                    (All-In _ s.pool
                      (λ c _. mark-url s.heap s.metrics (url_of s.heap b) alive s.pool c))))
                v.distinct;
          allocated = v.allocated;
        })
]

add_parsed-Inv : (u : Url) (weight : ℤ) (s : Server) → Inv s → Inv (add_parsed u weight s).0
unfolding add_parsed
add_parsed-Inv u weight s v = elim (Bool-cases (valid_url u)) [
  | inr e ↦ rw e v
  | inl e ↦ elim (Bool-cases (has_url s.heap u.text s.pool)) [
    | inl old ↦ rw (e, old) v
    | inr new ↦
        rw (e, new)
          (record {
            distinct = add_backend-Distinct _ s.pool s.allocated (old_urls v.distinct);
            allocated = added v.allocated;
          })
  ]
]
  where
    s' : Server
    s' = new_backend s u (weight_or_one weight)

    old_urls : Distinct (backend_urls s.heap s.pool) → Distinct (backend_urls s'.heap s.pool)
    old_urls d =
        subst Distinct
          (sym (
            urls-same s.heap s'.heap s.pool
              (All-map _ _ (λ b lt. old-url s u (weight_or_one weight) b lt) s.pool v.allocated)))
          d

    added :
        All (λ b. b < s.allocated) s.pool
        → All (λ b. b < suc s.allocated) (add_backend s'.heap s.pool s.allocated)
    added a =
        add-All _ s'.heap s.pool s.allocated (All-map _ _ (λ b lt. omega arith) s.pool a)
          (omega arith)

Kept-Inv : Kept Inv
Kept-Inv = record { adds = add_parsed-Inv; removes = remove_url-Inv; sets = set_alive_url-Inv }

module _ (d : Decoding) where
  pub handle-Inv : (c : Call) (s : Server) → Inv s → Inv (handle d c s).0
  handle-Inv = handle-Kept d Inv Kept-Inv

  -- Whatever requests come, the backends of the pool stay allocated and their URLs pairwise different.
  pub handle_all-Inv : (calls : List Call) (s : Server) → Inv s → Inv (handle_all d calls s)
  unfolding handle_all
  handle_all-Inv [] s v = v
  handle_all-Inv (c ∷ cs) s v = handle_all-Inv cs (handle d c s).0 (handle-Inv c s v)
