-- ===== src/Admin/Laws.antt =====
-- internal/admin/admin.go: what the answers of the admin API say of its state.
use go_lb.Pool.Laws.{mark_backend_status_lem, has_url-append}
use go_lb.Metrics.{set_backend_up, Metrics}
use go_lb.Admin.Invariant.{Inv, old-url}
use go_lb.Base.{
  String, ◌≡◌, refl, sym, ap, ◌∙◌, subst, ◌≢◌, inl, inr, Bool, true, false, none, some, [], ◌∷◌,
  ◌++◌, arith, eq_iff, str_eq, Bool-cases, All, In, here, there, str_eq_refl, All-map, ok,
}
use go_lb.Admin.{
  Server, find, Decoding, handle_set_alive, handle_add, set_alive_url, remove_backend, add_parsed,
  remove_url, AddBackendRequest, valid_url, new_backend, weight_or_one,
}
use go_lb.Backend.{Url, Heap, Ref, url_of, is_alive}
use go_lb.Base.Int.{ℤ}
use go_lb.Pool.{has_url, remove, add_backend, ServerPool, mark_backend_status}

find-has_url :
    (h : Heap) (url : String) (bs : ServerPool) → has_url h url bs ≡ false → find h url bs ≡ none
unfolding find has_url
find-has_url h url [] e = refl
find-has_url h url (b ∷ bs) e = ground (arith, find-has_url h url bs)

has_url-find :
    (h : Heap) (url : String) (bs : ServerPool)
    → has_url h url bs ≡ true
    → (b : Ref) × (find h url bs ≡ some b) × In b bs × (url_of h b ≡ url)
unfolding find has_url
has_url-find h url [] e = cc
has_url-find h url (b ∷ bs) e = elim (Bool-cases (str_eq (url_of h b) url)) [
  | inl hit ↦ (b, ground (arith, hit), here, (eq_iff (url_of h b) url).0 hit)
  | inr miss ↦
      let (c, f, m, u) = has_url-find h url bs (ground (arith, miss, e)) in
      (c, ground (arith, miss, f), there m, u)
]

-- What `MarkBackendStatus` does at the URL of a backend of the pool.
module _ (s : Server) (alive : Bool) (b : Ref) (v : Inv s) (m : In b s.pool) where
  abbrev marked : Heap × Metrics
  marked = mark_backend_status s.heap s.metrics s.pool (url_of s.heap b) alive

  marked_alive : is_alive marked.0 b ≡ alive
  unfolding is_alive
  marked_alive =
      ground (arith, (mark_backend_status_lem s.heap s.metrics alive s.pool b b v.distinct m).0)

  marked_others : (c : Ref) → c ≢ b → marked.0 c ≡ s.heap c
  marked_others c n =
      ground (arith, (mark_backend_status_lem s.heap s.metrics alive s.pool b c v.distinct m).0)

  marked_metrics :
      {url : String} → url_of s.heap b ≡ url → marked.1 ≡ set_backend_up s.metrics url alive
  marked_metrics e =
      (mark_backend_status_lem s.heap s.metrics alive s.pool b b v.distinct m).1
      ∙ ap (λ t. set_backend_up s.metrics t alive) e

has_url-same :
    (h h' : Heap) (url : String) (bs : ServerPool)
    → All (λ b. url_of h' b ≡ url_of h b) bs
    → has_url h' url bs ≡ has_url h url bs
unfolding has_url
has_url-same h h' url [] e = refl
has_url-same h h' url (b ∷ bs) e = rw (e.0, has_url-same h h' url bs e.1)

remove-append :
    (h : Heap) (url : String) (bs : ServerPool) (b : Ref)
    → has_url h url bs ≡ false
    → url_of h b ≡ url
    → remove h url (bs ++ b ∷ []) ≡ (bs, true)
unfolding remove has_url
remove-append h url [] b n e = ground (arith, eq_iff (url_of h b) url)
remove-append h url (x ∷ bs) b n e = ground (arith, remove-append h url bs b)

-- A backend that has a place in the pool after `AddBackend`.
module _ (u : Url) (weight : ℤ) (s : Server) (v : Inv s) (valid : valid_url u ≡ true)
    (new : has_url s.heap u.text s.pool ≡ false) where
  s' : Server
  s' = new_backend s u (weight_or_one weight)

  with_new : Server
  with_new = record s' { pool = s.pool ++ s.allocated ∷ [] }

  new_url : url_of s'.heap s.allocated ≡ u.text
  unfolding s'
  new_url = ground arith

  still_new : has_url s'.heap u.text s.pool ≡ false
  unfolding s'
  still_new =
      has_url-same s.heap s'.heap u.text s.pool
        (All-map _ _ (λ b lt. old-url s u (weight_or_one weight) b lt) s.pool v.allocated)
      ∙ new

  added_parsed : ((add_parsed u weight s).0 ≡ with_new) × ((add_parsed u weight s).1.status ≡ 201)
  unfolding add_parsed with_new s' add_backend
  added_parsed = rw (valid, new) (rw (new_url, still_new) refl, refl)

  added_again :
      ((add_parsed u weight with_new).0 ≡ with_new)
      × ((add_parsed u weight with_new).1.status ≡ 409)
  unfolding add_parsed with_new
  added_again =
      rw
        (
          valid,
          has_url-append s'.heap u.text s.pool s.allocated,
          still_new,
          new_url,
          str_eq_refl u.text,
        )
        (refl, refl)

  added_removed :
      ((remove_url u.text with_new).0.pool ≡ s.pool) × ((remove_url u.text with_new).1.status ≡ 204)
  unfolding remove_url with_new
  added_removed =
      rw (remove-append s'.heap u.text s.pool s.allocated still_new new_url) (refl, refl)

module _ (d : Decoding) where
  -- Enabling or disabling a URL that the pool has answers 200 and sets the alive flag of the backend
  -- with that URL, and of no other, as asked, with the metric; a URL that the pool has not is
  -- answered 404, and nothing changes.
  pub handle_set_alive_lem :
      (path url : String) (alive : Bool) (s : Server)
      → Inv s
      → d.unescape path ≡ ok url
      → let after = handle_set_alive d path alive s in
        (has_url s.heap url s.pool ≡ true
          → (b : Ref) × In b s.pool
            × (url_of s.heap b ≡ url)
            × (after.1.status ≡ 200)
            × (is_alive after.0.heap b ≡ alive)
            × ((c : Ref) → c ≢ b → after.0.heap c ≡ s.heap c)
            × (after.0.metrics ≡ set_backend_up s.metrics url alive)
            × (after.0.pool ≡ s.pool))
        × (has_url s.heap url s.pool ≡ false → (after.0 ≡ s) × (after.1.status ≡ 404))
  unfolding handle_set_alive set_alive_url
  handle_set_alive_lem path url alive s v e = (
    (λ has.
        let (b, f, m, u) = has_url-find s.heap url s.pool has in
        rw (e, handle_set_alive, f, set_alive_url)
          (
            b,
            m,
            u,
            refl,
            marked_alive s alive b v m,
            marked_others s alive b v m,
            marked_metrics s alive b v m u,
            refl,
          )),
    (λ absent.
        rw (e, handle_set_alive, find-has_url s.heap url s.pool absent, set_alive_url)
          (refl, refl)),
  )

  add_reaches :
      (body : String) (req : AddBackendRequest) (u : Url) (t : Server)
      → d.decode body ≡ ok req
      → str_eq req.url "" ≡ false
      → d.parse req.url ≡ ok u
      → handle_add d body t ≡ add_parsed u req.weight t
  unfolding handle_add
  add_reaches body req u t e given e' = rw (e, handle_add, given, e') refl

  remove_reaches :
      (path url : String) (t : Server)
      → d.unescape path ≡ ok url
      → remove_backend d path t ≡ remove_url url t
  unfolding remove_backend
  remove_reaches path url t ep = rw (ep, remove_backend) refl

  -- A backend that `addBackend` has added is removed by a request with its URL: the answers are 201
  -- and 204, and the pool is what it was. Between the two, adding the URL again is answered 409.
  pub add-remove :
      (body path : String) (req : AddBackendRequest) (u : Url) (s : Server)
      → Inv s
      → d.decode body ≡ ok req
      → str_eq req.url "" ≡ false
      → d.parse req.url ≡ ok u
      → valid_url u ≡ true
      → has_url s.heap u.text s.pool ≡ false
      → d.unescape path ≡ ok u.text
      → let added = handle_add d body s in
        let again = handle_add d body added.0 in
        let removed = remove_backend d path added.0 in
        (added.1.status ≡ 201)
        × (again.1.status ≡ 409)
        × (again.0 ≡ added.0)
        × (removed.1.status ≡ 204)
        × (removed.0.pool ≡ s.pool)
  add-remove body path req u s v e given e' valid new ep =
      let w = with_new u req.weight s v valid new in
      let first = added_parsed u req.weight s v valid new in
      let second = added_again u req.weight s v valid new in
      let third = added_removed u req.weight s v valid new in
      let e0 : (handle_add d body s).0 ≡ w =
        ap (λ a. a.0) (add_reaches body req u s e given e') ∙ first.0 in
      let rest = subst Onward (sym e0) (
        ap (λ a. a.1.status) (add_reaches body req u w e given e') ∙ second.1,
        ap (λ a. a.0) (add_reaches body req u w e given e') ∙ second.0,
        ap (λ a. a.1.status) (remove_reaches path u.text w ep) ∙ third.1,
        ap (λ a. a.0.pool) (remove_reaches path u.text w ep) ∙ third.0,
      ) in
      (
        ap (λ a. a.1.status) (add_reaches body req u s e given e') ∙ first.1,
        rest.0,
        rest.1,
        rest.2,
        rest.3,
      )
    where
      Onward : Server → Type 0
      Onward t =
          ((handle_add d body t).1.status ≡ 409)
          × ((handle_add d body t).0 ≡ t)
          × ((remove_backend d path t).1.status ≡ 204)
          × ((remove_backend d path t).0.pool ≡ s.pool)
