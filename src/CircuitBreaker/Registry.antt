-- ===== src/CircuitBreaker/Registry.antt =====
-- internal/circuitbreaker/circuitbreaker.go: `Registry`, the breakers by backend URL. Nothing in
-- the program keeps a breaker over a `Remove`, so the map holds the breakers themselves.
use go_lb.Base.{
  String, ◌≡◌, none, some, arith, eq_iff, str_eq, if◌then◌else◌, GoMap, empty_map, insert, delete,
  get_or,
}
use go_lb.CircuitBreaker.{Config, Breaker, new_breaker}

pub record Registry : Type 0 where
  pub breakers : GoMap Breaker
  pub cfg : Config

unfoldable pub new_registry : Config → Registry
new_registry cfg = record { breakers = empty_map; cfg = cfg }

abbrev pub fresh : Config → Breaker
fresh cfg = new_breaker cfg.failure_threshold cfg.success_threshold cfg.timeout

unfoldable pub get : Registry → String → Registry × Breaker
get r url = elim (r.breakers url) [
  | some cb ↦ (r, cb)
  | none ↦ let cb = fresh r.cfg in (record r { breakers = insert r.breakers url cb }, cb)
]

unfoldable pub remove : Registry → String → Registry
remove r url = record r { breakers = delete r.breakers url }

-- `r.Get(url).Method()` for a method that gives the breaker after it and a result.
unfoldable pub with_breaker {ℓ} :
    {A : Type ℓ} → Registry → String → (Breaker → Breaker × A) → Registry × A
unfolding get
with_breaker r url f =
    let (r', cb) = get r url in
    let (cb', a) = f cb in (record r' { breakers = insert r'.breakers url cb' }, a)

-- The registry as its callers see it: every URL has a breaker, new if none was asked for yet.
abbrev pub view : Registry → String → Breaker
view r url = get_or (r.breakers url) (fresh r.cfg)

get-breaker :
    (r : Registry) (url : String) → ((get r url).1 ≡ view r url) × ((get r url).0.cfg ≡ r.cfg)
unfolding get
get-breaker r url = ground arith

get-other : (r : Registry) (url v : String) → view (get r url).0 v ≡ view r v
unfolding get
get-other r url v = ground (arith, eq_iff url v)

-- A method called through `Get` changes the breaker of its URL as it changes a breaker, answers what
-- it answers there, and leaves the breakers of all other URLs as they were.
pub with_breaker-view {ℓ} :
    {A : Type ℓ} (r : Registry) (url v : String) (f : Breaker → Breaker × A)
    → (view (with_breaker r url f).0 v ≡ (if str_eq url v then (f (view r url)).0 else view r v))
      × ((with_breaker r url f).1 ≡ (f (view r url)).1)
unfolding with_breaker
with_breaker-view r url v f = ground (arith, get-breaker r url, get-other r url v)
