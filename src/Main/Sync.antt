-- ===== src/Main/Sync.antt =====
-- cmd/golb/main.go: the pool has the URLs and the weights of the current configuration.
use go_lb.Base.{
  All, All-In, In-All, All-map, eq_iff, ◌≢◌, refl, insert_self, some, empty_map, String, ◌≡◌, sym,
  ap, ◌∙◌, subst, inl, inr, ◌||◌, List, [], ◌∷◌, arith, GoMap, ok, ok-injective,
}
use go_lb.Config.{BackendConfig, Config}
use go_lb.Config.Load.{Reading, load_file}
use go_lb.Pool.{has_url}
use go_lb.Reload.{by_url}
use go_lb.Reload.Diffs.{configured}
use go_lb.Reload.Sync.{new_backend, has, urls, Keys, Synced, Plain, by_url-present, apply-Synced}
use go_lb.Main.Start.{Platform, System, Members, register, no_members, enlist, start}
use go_lb.Main.Run.{Outside, running, reload, on_hangup}
use go_lb.Main.Hangup.{reload-cases, on_hangup-cases}
use go_lb.Main.Invariant.{Inv}
use go_lb.Main.Ready.{start-Steps}
use go_lb.Base.Int.{ℤ}
use go_lb.Backend.{Backend, Url, set_alive, Ref}
use go_lb.Pool.{Distinct}
use go_lb.Pool.Laws.{add-All}
use go_lb.Reload.Apply
use go_lb.Reload.Changes.{weight_at}
use go_lb.Reload.Weights.{Weighted, apply-Weighted}
use go_lb.Main.Register.{
  enlist-old, Enlisted, register-step, enlist-registered, enlist-Enlisted, no_members-Enlisted,
  registered,
}

-- The URLs of the pool are those of the current configuration, and so are the weights.
pub record InSync (s : System) : Type 0 where
  pub listed : Synced s.world.heap s.world.pool s.current
  pub weights : Weighted s.world.heap s.world.pool s.current

by_url-other :
    (bcs : List BackendConfig) (m : GoMap BackendConfig) (v : String)
    → All (λ u. v ≢ u) (urls bcs)
    → by_url bcs m v ≡ m v
unfolding by_url
by_url-other [] m v a = refl
by_url-other (c ∷ cs) m v a = by_url-other cs _ v a.1 ∙ ground (arith, eq_iff c.url v, a.0)

by_url-each :
    (bcs : List BackendConfig) (m : GoMap BackendConfig)
    → Distinct (urls bcs)
    → All (λ bc. by_url bcs m bc.url ≡ some bc) bcs
unfolding by_url
by_url-each [] m d = tt
by_url-each (c ∷ cs) m d =
    (by_url-other cs _ c.url d.0 ∙ insert_self m c.url c, by_url-each cs _ d.1)

-- A backend with the weight that the configuration gives its URL.
abbrev Exact : Config → Backend → Type 0
Exact cfg b = b.weight ≡ weight_at (configured cfg b.url.text)

enlist-made : (u : Url) (w : ℤ) (m : Members) → (enlist u w m).heap m.allocated ≡ new_backend u w
unfolding enlist set_alive
enlist-made u w m = ground arith

enlist-All :
    (G : Backend → Type 0) (u : Url) (w : ℤ) (m : Members)
    → Enlisted m
    → G (new_backend u w)
    → All (λ c. G (m.heap c)) m.pool
    → All (λ c. G ((enlist u w m).heap c)) (enlist u w m).pool
unfolding enlist
enlist-All G u w m good made all =
    add-All _ (enlist u w m).heap m.pool m.allocated
      (All-In _ m.pool (λ c i.
        subst G (sym (enlist-old u w m c (In-All _ m.pool good.up i).0)) (In-All _ m.pool all i)))
      (subst G (sym (enlist-made u w m)) made)

module _ (os : Platform) where
  abbrev Plains : List BackendConfig → Type 0
  Plains bcs = All (λ text. (u : Url) → os.parse text ≡ ok u → u.text ≡ text) (urls bcs)

  register-registered :
      (bcs : List BackendConfig) (m m' : Members) (v : String)
      → Plains bcs
      → Enlisted m
      → register os bcs m ≡ ok m'
      → registered m' v ≡ (registered m v || has v (urls bcs))
  unfolding register
  register-registered [] m m' v plain good e =
      ap (λ x. registered x v) (sym (ok-injective e)) ∙ ground arith
  register-registered (bc ∷ bcs) m m' v plain good e =
      let (u, parsed, more) = register-step os bc bcs m m' e in
      register-registered bcs (enlist u bc.weight m) m' v plain.1
        (enlist-Enlisted u bc.weight m good) more
      ∙ ground (arith, enlist-registered u bc.weight m v good, plain.0 u parsed)

  register-All :
      (G : Backend → Type 0) (bcs : List BackendConfig) (m m' : Members)
      → Plains bcs
      → Enlisted m
      → All (λ bc. (u : Url) → u.text ≡ bc.url → G (new_backend u bc.weight)) bcs
      → All (λ c. G (m.heap c)) m.pool
      → register os bcs m ≡ ok m'
      → All (λ c. G (m'.heap c)) m'.pool
  unfolding register
  register-All G [] m m' plain good made all e =
      subst (λ x. All (λ c. G (x.heap c)) x.pool) (ok-injective e) all
  register-All G (bc ∷ bcs) m m' plain good made all e =
      let (u, parsed, more) = register-step os bc bcs m m' e in
      register-All G bcs (enlist u bc.weight m) m' plain.1 (enlist-Enlisted u bc.weight m good)
        made.1 (enlist-All G u bc.weight m good (made.0 u (plain.0 u parsed)) all) more

  -- A start with a configuration that gives no URL twice leaves the pool with its URLs and its
  -- weights, where the URLs of the configuration, once parsed, print as their texts there.
  pub start-InSync :
      (cfg_path : String) (cfg : Config) (s : System)
      → Plain os.parse cfg
      → Distinct (urls cfg.pool.backends)
      → start os cfg_path cfg ≡ ok s
      → InSync s
  unfolding has_url
  start-InSync cfg_path cfg s plain once e =
      let t = start-Steps os cfg_path cfg s e in
      let made =
        All-map _ (λ bc. (u : Url) → u.text ≡ bc.url → Exact cfg (new_backend u bc.weight))
          (λ bc at u text. sym (ap weight_at (ap (configured cfg) text ∙ at))) cfg.pool.backends
          (by_url-each cfg.pool.backends empty_map once) in
      subst InSync t.system (record {
        listed = λ v.
            register-registered cfg.pool.backends no_members t.members v plain
              (no_members-Enlisted os) t.registers
            ∙ sym (by_url-present cfg.pool.backends empty_map v);
        weights =
            register-All (Exact cfg) cfg.pool.backends no_members t.members plain
              (no_members-Enlisted os) made tt t.registers;
      })

running-Inv : {n : Ref → ℤ} (s : System) → Inv n s → Apply.Inv (running s)
running-Inv s v = record { distinct = v.distinct; allocated = v.allocated }

module _ (out : Outside) where
  reload-InSync :
      {n : Ref → ℤ} (cfg : Config) (old_keys new_keys : List String) (s : System)
      → Plain out.os.parse cfg
      → Keys old_keys (configured s.current)
      → Keys new_keys (configured cfg)
      → Inv n s
      → InSync s
      → InSync (reload out cfg old_keys new_keys s)
  reload-InSync cfg old_keys new_keys s plain old_k new_k inv synced =
      elim (reload-cases out cfg old_keys new_keys s) [
        | inl e ↦ subst InSync (sym e) synced
        | inr (made, e) ↦
            let v = running-Inv s inv in
            subst InSync (sym e) (record {
              listed =
                  apply-Synced out.os.parse s.current cfg old_keys new_keys (running s) plain old_k
                    new_k v synced.listed made;
              weights =
                  apply-Weighted out.os.parse s.current cfg old_keys new_keys (running s) plain
                    old_k new_k v synced.listed synced.weights made;
            })
      ]

  -- Where the pool has the URLs and the weights of the current configuration, it has them after a
  -- SIGHUP, whether that is refused or made and whatever configuration it makes the current one, if
  -- the URLs of the configuration that it loads, once parsed, print as their texts there and the
  -- orders of the keys are orders of the keys.
  pub on_hangup-InSync :
      {n : Ref → ℤ} (read : String → Reading) (old_keys new_keys : List String) (s : System)
      → Keys old_keys (configured s.current)
      → ((cfg : Config)
          → load_file out.library out.shell read s.cfg_path ≡ ok cfg
          → Plain out.os.parse cfg × Keys new_keys (configured cfg))
      → Inv n s
      → InSync s
      → InSync (on_hangup out read old_keys new_keys s)
  on_hangup-InSync read old_keys new_keys s old_k new inv synced =
      elim (on_hangup-cases out read old_keys new_keys s) [
        | inl e ↦ subst InSync (sym e) synced
        | inr (cfg, accepted, e) ↦ subst InSync (sym e) (
            let (plain, new_k) = new cfg accepted.loaded in
            reload-InSync cfg old_keys new_keys s plain old_k new_k inv synced)
      ]
