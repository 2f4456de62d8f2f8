-- ===== src/Proxy/Selection.antt =====
-- internal/proxy/proxy.go: which backend a request is sent to, and what it gets if there is none.
use go_lb.Proxy.Keeps.{candidates-Keeps, select-Keeps}
use go_lb.Algo.Contract.{Contract, chosen, next-Contract, none_alive}
use go_lb.Base.{
  ℕ, suc, String, ◌≡◌, refl, ◌∙◌, subst, inl, inr, Bool, true, false, ◌&&◌, Option, some, List, [],
  ◌∷◌, arith, eq_iff, leb, ◌==◌, str_eq, if◌then◌else◌, Bool-cases, Option-cases, length, All, In,
  here, there, In-All,
}
use go_lb.Backend.{Ref, Heap, url_of, is_alive}
use go_lb.Sticky.{from_request}
use go_lb.Proxy.{
  choose, Request, Env, World, filter_eligible, candidates, find_pinned, pinned, select, serve_http,
  unavailable, max_backend_switches, get_attempts_from_context,
}

find_pinned-some :
    (h : Heap) (target : String) (bs : List Ref) {b : Ref}
    → find_pinned h target bs ≡ some b
    → In b bs × (is_alive h b ≡ true) × (url_of h b ≡ target)
unfolding find_pinned
find_pinned-some h target [] e = cc
find_pinned-some h target (x ∷ bs) {b} e =
    elim (Bool-cases (str_eq (url_of h x) target && is_alive h x)) [
      | inl hit ↦ (
        subst (λ y. In y (x ∷ bs)) (ground (arith, hit, e)) here,
        ground (arith, hit, e),
        subst (λ y. url_of h y ≡ target) (ground (arith, hit, e))
            ((eq_iff (url_of h x) target).0 (ground (arith, hit))),
      )
      | inr miss ↦
          let (m, l, u) = find_pinned-some h target bs (ground (arith, miss)) in (there m, l, u)
    ]

pinned-some :
    (env : Env) (r : Request) (w : World) (bs : List Ref) {b : Ref}
    → pinned env r w bs ≡ some b
    → In b bs × (is_alive w.heap b ≡ true)
unfolding pinned
pinned-some env r w bs {b} e = elim (Option-cases w.sticky) [
  | inl absent ↦ ground (arith, absent, e)
  | inr (a, at) ↦
      let (m, l, _) =
        find_pinned-some w.heap (from_request env.codec a r.cookies) bs (ground (arith, at, e)) in
      (m, l)
]

if-In :
    (ok : Bool) (x : Ref) {b : Ref} {ys bs : List Ref}
    → (In b ys → In b bs)
    → In b (if ok then x ∷ ys else ys)
    → In b (x ∷ bs)
if-In true x f here = here
if-In true x f (there m) = there (f m)
if-In false x f m = there (f m)

filtered-In :
    (env : Env) (bs : List Ref) (w : World) {b : Ref} → In b (filter_eligible env bs w).0 → In b bs
unfolding filter_eligible
filtered-In env [] w m = m
filtered-In env (x ∷ bs) w m = if-In _ x (filtered-In env bs _) m

candidates-In : (env : Env) (w : World) {b : Ref} → In b (candidates env w).0 → In b w.pool
unfolding candidates
candidates-In env w {b} m = elim (Option-cases w.cb_registry) [
  | inl absent ↦ subst (In b) (ground (arith, absent)) m
  | inr (reg, at) ↦ elim (Bool-cases (length (filter_eligible env w.pool w).0 == 0)) [
    | inl dry ↦ subst (In b) (ground (arith, at, dry)) m
    | inr wet ↦ filtered-In env w.pool w (subst (In b) (ground (arith, at, wet)) m)
  ]
]

Chosen-some :
    (h : Heap) (bs : List Ref) {o : Option Ref} {b : Ref}
    → Contract h bs o
    → o ≡ some b
    → In b bs × (is_alive h b ≡ true)
Chosen-some h bs {b = b} (chosen c m l) e = (
  subst (λ x. In x bs) (ground (arith, e)) m,
  subst (λ x. is_alive h x ≡ true) (ground (arith, e)) l,
)
Chosen-some h bs (none_alive d) e = ground (arith, e)

module _ (env : Env) where
  pub choose-live :
      (r : Request) (w : World) (bs : List Ref) (b : Ref)
      → (choose env r w bs).0 ≡ some b
      → In b bs × (is_alive w.heap b ≡ true)
  unfolding choose
  choose-live r w bs b e = elim (Option-cases (pinned env r w bs)) [
    | inl absent ↦
        Chosen-some w.heap bs (next-Contract w.heap w.algo bs) (ground (arith, absent, e))
    | inr (peer, at) ↦ pinned-some env r w bs (at ∙ ground (arith, at, e))
  ]

  select-live :
      (r : Request) (w : World) (b : Ref)
      → (select env r w).0 ≡ some b
      → In b (candidates env w).0 × (is_alive (candidates env w).1.heap b ≡ true)
  unfolding select
  select-live r w b e = choose-live r (candidates env w).1 (candidates env w).0 b e

  -- The backend that a request is sent to, pinned by its cookie or chosen by the algorithm, is one of
  -- the pool's backends, and it was alive when the request came.
  pub select_sound :
      (r : Request) (w : World) (b : Ref)
      → (select env r w).0 ≡ some b
      → In b w.pool × (is_alive w.heap b ≡ true)
  select_sound r w b e =
      let (m, l) = select-live r w b e in
      (candidates-In env w m, subst (λ h. is_alive h b ≡ true) (candidates-Keeps env w).heap l)

  -- If every backend of the pool is dead, a request is answered 503, whatever cookie it carries, and
  -- there is no exchange with any backend.
  pub serve_http-unavailable :
      (f : ℕ) (r : Request) (w : World)
      → All (λ b. is_alive w.heap b ≡ false) w.pool
      → (w' : World) × (serve_http env (suc f) r w ≡ some (unavailable, w')) × (w'.sent ≡ w.sent)
  unfolding serve_http
  serve_http-unavailable f r w dead =
      elim (Bool-cases (leb max_backend_switches (get_attempts_from_context r))) [
        | inl over ↦ (w, ground (arith, over), refl)
        | inr under ↦ elim (Option-cases (select env r w).0) [
          | inl nobody ↦
              ((select env r w).1, ground (arith, under, nobody), (select-Keeps env r w).sent)
          | inr (b, at) ↦
              ground
                (arith, In-All _ w.pool dead (select_sound r w b at).0, (select_sound r w b at).1)
        ]
      ]
