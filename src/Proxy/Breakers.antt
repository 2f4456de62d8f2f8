-- ===== src/Proxy/Breakers.antt =====
-- internal/proxy/proxy.go: the pool and the circuit breakers over one request.
use go_lb.Base.{
  leb, ◌==◌, if◌then◌else◌, false, true, some-injective, ◌∙◌, List, [], ◌∷◌, Bool, ℕ, String, ◌≡◌,
  sym, subst, ◌⊎◌, inl, inr, none, some, arith, Option-cases, insert,
}
use go_lb.CircuitBreaker.{
  eligible, Config, Breaker, allow, record_failure, record_success, allows, succeeds, fails, step,
}
use go_lb.CircuitBreaker.Invariant
use go_lb.CircuitBreaker.Invariant.{step-Inv, new_breaker-Inv}
use go_lb.CircuitBreaker.Registry.{Registry, with_breaker, get, fresh}
use go_lb.Pool.{ServerPool, backends}
use go_lb.Backend.{Ref, url_of}
use go_lb.Proxy.Induction.{Kept}
use go_lb.Proxy.Keeps.{select-Keeps, on_breaker-Keeps, settle-Keeps}
use go_lb.Proxy.{
  Response, status_code, get_attempts_from_context, recorded, filter_eligible, candidates, select,
  settle, mark_failed, tell, begin_frame, end_frame, Request, now, Env, World, on_breaker,
}

-- Every breaker that the registry holds satisfies the breaker's invariant.
abbrev pub Registered : Registry → Type 0
Registered reg = (url : String) (b : Breaker) → reg.breakers url ≡ some b → Invariant.Inv b

abbrev pub RegisteredIn : World → Type 0
RegisteredIn w = (reg : Registry) → w.cb_registry ≡ some reg → Registered reg

-- A call that keeps the invariant.
abbrev Sound : (Breaker → Breaker × Bool) → Type 0
Sound f = (b : Breaker) → Invariant.Inv b → Invariant.Inv (f b).0

inserted :
    (reg : Registry) (url u : String) (cb b : Breaker)
    → insert reg.breakers url cb u ≡ some b
    → (cb ≡ b) ⊎ (reg.breakers u ≡ some b)
inserted reg url u cb b e = grind arith

insert-Registered :
    (reg : Registry) (url : String) (cb : Breaker)
    → Invariant.Inv cb
    → Registered reg
    → Registered (record reg { breakers = insert reg.breakers url cb })
insert-Registered reg url cb v all u b e = elim (inserted reg url u cb b e) [
  | inl same ↦ subst Invariant.Inv same v
  | inr old ↦ all u b old
]

fresh-Inv : (cfg : Config) → Invariant.Inv (fresh cfg)
fresh-Inv cfg = (new_breaker-Inv cfg.failure_threshold cfg.success_threshold cfg.timeout).0

get-Registered :
    (reg : Registry) (url : String)
    → Registered reg
    → Registered (get reg url).0 × Invariant.Inv (get reg url).1
unfolding get
get-Registered reg url all = elim (Option-cases (reg.breakers url)) [
  | inl e ↦
      rw (e, get)
        (insert-Registered reg url (fresh reg.cfg) (fresh-Inv reg.cfg) all, fresh-Inv reg.cfg)
  | inr (b, e) ↦ rw (e, get) (all, all url b e)
]

with_breaker-Registered :
    (reg : Registry) (url : String) (f : Breaker → Breaker × Bool)
    → Sound f
    → Registered reg
    → Registered (with_breaker reg url f).0
unfolding with_breaker
with_breaker-Registered reg url f sound all =
    let (kept, v) = get-Registered reg url all in
    insert-Registered (get reg url).0 url (f (get reg url).1).0 (sound (get reg url).1 v) kept

allow-Sound : (now : ℕ) → Sound (allow now)
unfolding step
allow-Sound now b v = step-Inv b (allows now) v

failure-Sound : (now : ℕ) (b : Breaker) → Invariant.Inv b → Invariant.Inv (record_failure now b)
unfolding step
failure-Sound now b v = step-Inv b (fails now) v

success-Sound : (b : Breaker) → Invariant.Inv b → Invariant.Inv (record_success b)
unfolding step
success-Sound b v = step-Inv b succeeds v

if-Registered :
    (b : Bool) (w w' : World)
    → RegisteredIn w
    → RegisteredIn w'
    → RegisteredIn (if b then w else w')
if-Registered true _ _ p q = p
if-Registered false _ _ p q = q

module _ (env : Env) where
  on_breaker-unset :
      (url : String) (f : ℕ → Breaker → Breaker × Bool) (w : World)
      → w.cb_registry ≡ none
      → (on_breaker env url f w).0.cb_registry ≡ w.cb_registry
  unfolding on_breaker
  on_breaker-unset url f w e = grind arith

  on_breaker-set :
      (url : String) (f : ℕ → Breaker → Breaker × Bool) (w : World) (reg : Registry)
      → w.cb_registry ≡ some reg
      → (on_breaker env url f w).0.cb_registry ≡ some (with_breaker reg url (f (now env w))).0
  unfolding on_breaker
  on_breaker-set url f w reg e = grind arith

  on_breaker-Registered :
      (url : String) (f : ℕ → Breaker → Breaker × Bool) (w : World)
      → ((t : ℕ) → Sound (f t))
      → RegisteredIn w
      → RegisteredIn (on_breaker env url f w).0
  unfolding on_breaker
  on_breaker-Registered url f w sound all reg e = elim (Option-cases w.cb_registry) [
    | inl unset ↦ all reg (sym (on_breaker-unset url f w unset) ∙ e)
    | inr (old, set) ↦
        subst Registered (some-injective (sym (on_breaker-set url f w old set) ∙ e))
          (with_breaker-Registered old url (f (now env w)) (sound (now env w)) (all old set))
  ]

  pub eligible-Registered :
      (url : String) (w : World)
      → RegisteredIn w
      → RegisteredIn (on_breaker env url (λ t cb. (cb, eligible t cb)) w).0
  eligible-Registered url w = on_breaker-Registered url _ w (λ t b v. v)

  pub allowed-Registered :
      (url : String) (w : World) → RegisteredIn w → RegisteredIn (on_breaker env url allow w).0
  allowed-Registered url w = on_breaker-Registered url allow w allow-Sound

  pub failed-Registered :
      (url : String) (w : World)
      → RegisteredIn w
      → RegisteredIn (on_breaker env url (tell env record_failure) w).0
  failed-Registered url w = on_breaker-Registered url _ w failure-Sound

  pub succeeded-Registered :
      (url : String) (w : World)
      → RegisteredIn w
      → RegisteredIn (on_breaker env url (tell env (λ _ b. record_success b)) w).0
  succeeded-Registered url w = on_breaker-Registered url _ w (λ t. success-Sound)

  filter_eligible-Registered :
      (bs : List Ref) (w : World) → RegisteredIn w → RegisteredIn (filter_eligible env bs w).1
  unfolding filter_eligible
  filter_eligible-Registered [] w all = all
  filter_eligible-Registered (b ∷ bs) w all =
      filter_eligible-Registered bs _ (eligible-Registered (url_of w.heap b) w all)

  candidates-registry :
      (w : World)
      → ((candidates env w).1.cb_registry ≡ w.cb_registry)
        ⊎ ((candidates env w).1.cb_registry
            ≡ (filter_eligible env (backends w.pool) w).1.cb_registry)
  unfolding candidates
  candidates-registry w = ground arith

  candidates-Registered : (w : World) → RegisteredIn w → RegisteredIn (candidates env w).1
  candidates-Registered w all reg set = elim (candidates-registry w) [
    | inl e ↦ all reg (sym e ∙ set)
    | inr e ↦ filter_eligible-Registered (backends w.pool) w all reg (sym e ∙ set)
  ]

  select-registry :
      (r : Request) (w : World) → (select env r w).1.cb_registry ≡ (candidates env w).1.cb_registry
  unfolding select
  select-registry r w = ground arith

  select-Registered : (r : Request) (w : World) → RegisteredIn w → RegisteredIn (select env r w).1
  select-Registered r w all reg set =
      candidates-Registered w all reg (sym (select-registry r w) ∙ set)

  settle-Registered :
      (attempts : ℕ) (b : Ref) (start : ℕ) (resp : Response) (r : Request) (w : World)
      → RegisteredIn w
      → RegisteredIn (settle env attempts b start resp r w)
  unfolding settle
  settle-Registered attempts b start resp r w all =
      let w' = recorded env b start (status_code resp) w in
      if-Registered resp.aborted _ _ all (
        if-Registered (get_attempts_from_context r == attempts) _ _
          (if-Registered (leb 500 (status_code resp)) _ _
            (failed-Registered (url_of w.heap b) w' all)
            (succeeded-Registered (url_of w.heap b) w' all))
          all)

  -- One request, whatever the backends answer, leaves every breaker with its invariant.
  pub Kept-RegisteredIn : Kept env RegisteredIn
  unfolding mark_failed begin_frame end_frame
  Kept-RegisteredIn = record {
    selects = select-Registered;
    asks = allowed-Registered;
    sends = λ b w all. all;
    marks = λ b w all. failed-Registered (url_of w.heap b) _ all;
    begins = λ b w all. all;
    settles = settle-Registered;
    ends = λ b w all. all;
  }

  -- What a request leaves of the pool and the session affinity.
  pub Kept-pool : (p : ServerPool) → Kept env (λ w. w.pool ≡ p)
  unfolding mark_failed begin_frame end_frame
  Kept-pool p = record {
    selects = λ r w e. (select-Keeps env r w).pool ∙ e;
    asks = λ url w e. (on_breaker-Keeps env url allow w).pool ∙ e;
    sends = λ b w e. e;
    marks = λ b w e. (on_breaker-Keeps env (url_of w.heap b) (tell env record_failure) _).pool ∙ e;
    begins = λ b w e. e;
    settles = λ a b start resp r w e. (settle-Keeps env a b start resp r w).pool ∙ e;
    ends = λ b w e. e;
  }
