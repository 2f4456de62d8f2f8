-- ===== src/Middleware.antt =====
-- internal/middleware/middleware.go: the chain of handlers around a handler. What a handler is does
-- not matter to it.
use go_lb.Base.{ℕ, zero, suc, ◌≡◌, refl, ap, ◌∙◌, none, some, List, [], ◌∷◌, length, get_elem?}

module _ {ℓ} (Handler : Type ℓ) where
  abbrev pub Middleware : Type ℓ
  Middleware = Handler → Handler

  -- The loop, from index `i - 1` down. (An index out of range would be a panic; there is none.)
  unfoldable pub chain_from : List Middleware → ℕ → Handler → Handler
  chain_from mws zero h = h
  chain_from mws (suc i) h = chain_from mws i (elim (get_elem? mws i) [ none ↦ h | some mw ↦ mw h ])

  unfoldable pub chain : Handler → List Middleware → Handler
  chain h mws = chain_from mws (length mws) h

  -- `m1(m2(...(h)))`
  abbrev pub nested : Handler → List Middleware → Handler
  nested h [] = h
  nested h (mw ∷ mws) = mw (nested h mws)

  chain_from-nested :
      (mw : Middleware) (mws : List Middleware) (i : ℕ) (h : Handler)
      → chain_from (mw ∷ mws) (suc i) h ≡ mw (chain_from mws i h)
  unfolding chain_from
  chain_from-nested mw mws zero h = refl
  chain_from-nested mw mws (suc i) h = chain_from-nested mw mws i _

  -- `Chain` applies the last middleware first: the first of the list is the outermost, around the
  -- second, and so on to the handler itself.
  pub chain-nested : (h : Handler) (mws : List Middleware) → chain h mws ≡ nested h mws
  unfolding chain chain_from
  chain-nested h [] = refl
  chain-nested h (mw ∷ mws) = chain_from-nested mw mws (length mws) h ∙ ap mw (chain-nested h mws)
