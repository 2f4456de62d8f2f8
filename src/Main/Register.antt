-- ===== src/Main/Register.antt =====
-- cmd/golb/main.go: the loop that registers the configured backends.
use go_lb.Base.{
  ok-injective, ◌<◌, String, ◌≡◌, refl, sym, ap, ◌∙◌, subst, inl, inr, Bool, true, ◌||◌, List, [],
  ◌∷◌, arith, str_eq, All, str_eq_refl, ok, Result-cases, All-map,
}
use go_lb.Base.Int.{ℤ}
use go_lb.Backend.{Url, Ref, url_of, is_alive, set_alive}
use go_lb.Pool.{has_url, Distinct, backend_urls}
use go_lb.Pool.Laws.{has_url-same, add_backend_lem, add_backend-Distinct, add-All, urls-same}
use go_lb.Config.{BackendConfig}
use go_lb.Main.Start.{Platform, Members, enlist, register, no_members}
use go_lb.Main.Counted.{Counts, idle}

-- What holds of the backends while they are registered.
pub record Enlisted (m : Members) : Type 0 where
  pub distinct : Distinct (backend_urls m.heap m.pool)
  pub up : All (λ b. (b < m.allocated) × (is_alive m.heap b ≡ true)) m.pool
  pub counts : Counts idle m.heap

pub enlist-old :
    (u : Url) (w : ℤ) (m : Members) (b : Ref) → b < m.allocated → (enlist u w m).heap b ≡ m.heap b
unfolding enlist set_alive
enlist-old u w m b lt = ground arith

enlist-new : (u : Url) (w : ℤ) (m : Members) → is_alive (enlist u w m).heap m.allocated ≡ true
unfolding enlist set_alive is_alive
enlist-new u w m = ground arith

enlist-Counts :
    (u : Url) (w : ℤ) (m : Members) → Counts idle m.heap → Counts idle (enlist u w m).heap
unfolding enlist set_alive
enlist-Counts u w m counts c = ground (arith, counts c)

enlist-kept :
    (u : Url) (w : ℤ) (m : Members)
    → Enlisted m
    → All (λ b. url_of (enlist u w m).heap b ≡ url_of m.heap b) m.pool
enlist-kept u w m v =
    All-map _ _ (λ b good. ap (λ x. x.url.text) (enlist-old u w m b good.0)) m.pool v.up

pub enlist-Enlisted : (u : Url) (w : ℤ) (m : Members) → Enlisted m → Enlisted (enlist u w m)
unfolding enlist is_alive
enlist-Enlisted u w m v = record {
  distinct = add_backend-Distinct (enlist u w m).heap m.pool m.allocated (
      subst Distinct (sym (urls-same m.heap (enlist u w m).heap m.pool (enlist-kept u w m v)))
        v.distinct);
  up =
      add-All _ (enlist u w m).heap m.pool m.allocated
        (All-map _ _
          (λ b good.
            (omega (arith, good.0), ap (λ x. x.alive) (enlist-old u w m b good.0) ∙ good.1))
          m.pool v.up)
        (omega arith, enlist-new u w m);
  counts = enlist-Counts u w m v.counts;
}

-- Whether a URL is registered.
abbrev pub registered : Members → String → Bool
registered m v = has_url m.heap v m.pool

enlist-text : (u : Url) (w : ℤ) (m : Members) → url_of (enlist u w m).heap m.allocated ≡ u.text
unfolding enlist set_alive
enlist-text u w m = ground arith

pub enlist-registered :
    (u : Url) (w : ℤ) (m : Members) (v : String)
    → Enlisted m
    → registered (enlist u w m) v ≡ (registered m v || str_eq u.text v)
unfolding enlist
enlist-registered u w m v good =
    (add_backend_lem (enlist u w m).heap m.pool m.allocated 0).0 v ∙ (λ i.
      has_url-same m.heap (enlist u w m).heap v m.pool (enlist-kept u w m good) i
      || str_eq (enlist-text u w m i) v)

module _ (os : Platform) where
  -- The loop keeps what is registered, and registers each backend under its parsed URL.
  pub record Registers (bcs : List BackendConfig) (m m' : Members) : Type 0 where
    pub enlisted : Enlisted m'
    pub keeps : (v : String) → registered m v ≡ true → registered m' v ≡ true
    pub each : All (λ bc. (u : Url) × (os.parse bc.url ≡ ok u) × (registered m' u.text ≡ true)) bcs

  -- A loop that ends well has parsed the first URL and gone on.
  pub register-step :
      (bc : BackendConfig) (bcs : List BackendConfig) (m m' : Members)
      → register os (bc ∷ bcs) m ≡ ok m'
      → (u : Url) × (os.parse bc.url ≡ ok u) × (register os bcs (enlist u bc.weight m) ≡ ok m')
  unfolding register
  register-step bc bcs m m' e = elim (Result-cases (os.parse bc.url)) [
    | inl (cause, bad) ↦ absurd (ground (arith, bad, e))
    | inr (u, good) ↦ (u, good, ground (arith, good, e))
  ]

  pub register-Registers :
      (bcs : List BackendConfig) (m m' : Members)
      → Enlisted m
      → register os bcs m ≡ ok m'
      → Registers bcs m m'
  unfolding register
  register-Registers [] m m' v e =
      let same = ok-injective e in
      subst (Registers [] m) same (record { enlisted = v; keeps = λ x r. r; each = tt })
  register-Registers (bc ∷ bcs) m m' v e =
      let (u, good, more) = register-step bc bcs m m' e in
      let rest =
        register-Registers bcs (enlist u bc.weight m) m' (enlist-Enlisted u bc.weight m v) more in
      record {
        enlisted = rest.enlisted;
        keeps = λ x r. rest.keeps x (ground (arith, r, enlist-registered u bc.weight m x v));
        each = (
          (
            u,
            good,
            rest.keeps u.text
                (ground (arith, str_eq_refl u.text, enlist-registered u bc.weight m u.text v)),
          ),
          rest.each,
        );
      }

  pub no_members-Enlisted : Enlisted no_members
  no_members-Enlisted = record { distinct = tt; up = tt; counts = λ c. refl }
