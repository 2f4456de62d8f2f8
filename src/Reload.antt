-- ===== src/Reload.antt =====
-- internal/reload/reload.go: the difference of two configurations, and its application to the
-- running parts.
pub mod Apply
pub mod Diffs
pub mod Sync
mod Pointers
pub mod Changes
pub mod Weights
use go_lb.Config.{BackendConfig, HealthCheckConfig, TlsConfig, Config}
use go_lb.Health.{HealthChecker, update_config}
use go_lb.Metrics.{set_backend_up, Metrics}
use go_lb.Base.{
  suc, String, ◌⊎◌, inl, inr, Bool, true, false, not, ◌&&◌, ◌||◌, Option, none, some, List, [], ◌∷◌,
  ◌==◌, str_eq, if◌then◌else◌, length, GoMap, empty_map, insert, get_or, Result, ok, err,
}
use go_lb.Base.Int.{ℤ, pos, leb_ℤ}
use go_lb.Algo
use go_lb.Algo.{Algorithm}
use go_lb.Pool.{remove, add_backend, ServerPool}
use go_lb.Backend.{Url, Heap, store, Ref, url_of, set_weight}

pub record Diff : Type 0 where
  pub backends_added : List BackendConfig
  pub backends_removed : List String
  pub backends_changed : List BackendConfig
  pub algorithm_changed : Bool
  pub new_algorithm : String
  pub health_changed : Bool
  pub new_health_check : HealthCheckConfig
  pub tls_changed : Bool

abbrev is_empty {ℓ} : {A : Type ℓ} → List A → Bool
is_empty xs = length xs == 0

unfoldable pub empty : Diff → Bool
empty d =
    is_empty d.backends_added
    && is_empty d.backends_removed
    && is_empty d.backends_changed
    && not d.algorithm_changed
    && not d.health_changed
    && not d.tls_changed

-- The maps by URL: the last backend with a URL is the one that stays.
unfoldable pub by_url : List BackendConfig → GoMap BackendConfig → GoMap BackendConfig
by_url [] m = m
by_url (b ∷ bs) m = by_url bs (insert m b.url b)

abbrev pub eq_ℤ : ℤ → ℤ → Bool
eq_ℤ a b = leb_ℤ a b && leb_ℤ b a

abbrev eq_bool : Bool → Bool → Bool
eq_bool true b = b
eq_bool false b = not b

unfoldable pub health_differs : HealthCheckConfig → HealthCheckConfig → Bool
health_differs a b =
    not (str_eq a.path b.path)
    || not (eq_ℤ a.interval b.interval)
    || not (eq_ℤ a.timeout b.timeout)
    || not (eq_ℤ a.unhealthy_threshold b.unhealthy_threshold)
    || not (eq_ℤ a.healthy_threshold b.healthy_threshold)

unfoldable pub tls_differs : TlsConfig → TlsConfig → Bool
tls_differs a b =
    not (eq_bool a.enabled b.enabled)
    || not (str_eq a.cert_file b.cert_file)
    || not (str_eq a.key_file b.key_file)
    || not (str_eq a.min_version b.min_version)

-- The loop over `newBackends`, whose keys come in some order.
unfoldable pub added_changed :
    GoMap BackendConfig
    → GoMap BackendConfig
    → List String
    → List BackendConfig × List BackendConfig
added_changed old new [] = ([], [])
added_changed old new (u ∷ us) =
    let (added, changed) = added_changed old new us in
    elim (new u) [
      | none ↦ (added, changed)
      | some nb ↦ elim (old u) [
        | none ↦ (nb ∷ added, changed)
        | some ob ↦ if eq_ℤ ob.weight nb.weight then (added, changed) else (added, nb ∷ changed)
      ]
    ]

-- The loop over `oldBackends`.
unfoldable pub removed : GoMap BackendConfig → List String → List String
removed new [] = []
removed new (u ∷ us) = let rest = removed new us in elim (new u) [ none ↦ u ∷ rest | some _ ↦ rest ]

abbrev pub no_health_check : HealthCheckConfig
no_health_check = record {
  path = "";
  interval = pos 0;
  timeout = pos 0;
  unhealthy_threshold = pos 0;
  healthy_threshold = pos 0;
}

-- `old_keys` and `new_keys` are the orders in which Go goes through the two maps.
unfoldable pub compute_diff : Config → Config → List String → List String → Diff
compute_diff old new old_keys new_keys =
    let old_backends = by_url old.pool.backends empty_map in
    let new_backends = by_url new.pool.backends empty_map in
    let (added, changed) = added_changed old_backends new_backends new_keys in
    let algorithm_changed = not (str_eq old.pool.algorithm new.pool.algorithm) in
    let health_changed = health_differs old.health_check new.health_check in
    record {
      backends_added = added;
      backends_removed = removed new_backends old_keys;
      backends_changed = changed;
      algorithm_changed = algorithm_changed;
      new_algorithm = if algorithm_changed then new.pool.algorithm else "";
      health_changed = health_changed;
      new_health_check = if health_changed then new.health_check else no_health_check;
      tls_changed = tls_differs old.tls new.tls;
    }

-- The running parts.
pub record Running : Type 0 where
  pub heap : Heap
  pub allocated : Ref
  pub metrics : Metrics
  pub pool : ServerPool
  pub algo : Algorithm
  pub checker : HealthChecker

-- Why a reload is refused.
pub data Refusal : Type 0 where
  invalid_url : (url cause : String) → Refusal
  bad_scheme : (url : String) → Refusal
  no_host : (url : String) → Refusal
  unknown_algorithm : (name : String) → Refusal

unfoldable pub add_backends : List BackendConfig → List (Url × ℤ) → Running → Running
add_backends [] us s = s
add_backends (bc ∷ bcs) [] s = s
add_backends (bc ∷ bcs) ((u, weight) ∷ us) s =
    let heap' =
      store s.heap s.allocated
        (record { url = u; weight = weight; alive = true; active_conns = pos 0 }) in
    add_backends bcs us (record s {
      heap = heap';
      allocated = suc s.allocated;
      pool = add_backend heap' s.pool s.allocated;
      metrics = set_backend_up s.metrics bc.url true;
    })

unfoldable pub remove_backends : List String → Running → Running
remove_backends [] s = s
remove_backends (url ∷ urls) s =
    remove_backends urls (record s {
      pool = (remove s.heap url s.pool).0;
      metrics = set_backend_up s.metrics url false;
    })

-- `byURL`: the last backend of the pool with a URL.
unfoldable pub pool_by_url : Heap → List Ref → GoMap Ref → GoMap Ref
pool_by_url h [] m = m
pool_by_url h (b ∷ bs) m = pool_by_url h bs (insert m (url_of h b) b)

unfoldable pub set_weights : GoMap Ref → List BackendConfig → Heap → Heap
set_weights m [] h = h
set_weights m (bc ∷ bcs) h =
    set_weights m bcs (elim (m bc.url) [ none ↦ h | some b ↦ set_weight h b bc.weight ])

unfoldable pub update_health : Diff → HealthChecker → HealthChecker
update_health d hc =
    let c = d.new_health_check in
    if d.health_changed
    then update_config hc c.path c.interval c.timeout c.unhealthy_threshold c.healthy_threshold
    else hc

-- The second phase, with what the first has made.
unfoldable pub mutate : Diff → List (Url × ℤ) → Option Algorithm → Running → Running
mutate d to_add new_algo s =
    let s' = remove_backends d.backends_removed (add_backends d.backends_added to_add s) in
    record s' {
      heap = set_weights (pool_by_url s'.heap s'.pool empty_map) d.backends_changed s'.heap;
      algo = get_or new_algo s'.algo;
      checker = update_health d s'.checker;
    }

module _ (parse : String → Result Url) where
  -- The first loop: `toAdd`, or the error.
  unfoldable pub parse_added : List BackendConfig → Refusal ⊎ List (Url × ℤ)
  parse_added [] = inr []
  parse_added (bc ∷ bcs) =
      let rest = parse_added bcs in
      elim (parse bc.url) [
        | err cause ↦ inl (invalid_url bc.url cause)
        | ok u ↦
            if not (str_eq u.scheme "http" || str_eq u.scheme "https")
            then inl (bad_scheme bc.url)
            else if str_eq u.host ""
            then inl (no_host bc.url)
            else elim rest [ inl e ↦ inl e | inr us ↦ inr ((u, bc.weight) ∷ us) ]
      ]

  -- `Apply`: the state after it, and the error if there is one.
  unfoldable pub apply : Diff → Running → Running × Option Refusal
  apply d s = elim (parse_added d.backends_added) [
    | inl e ↦ (s, some e)
    | inr to_add ↦
        if not d.algorithm_changed
        then (mutate d to_add none s, none)
        else elim (Algo.new d.new_algorithm) [
          | none ↦ (s, some (unknown_algorithm d.new_algorithm))
          | some a ↦ (mutate d to_add (some a) s, none)
        ]
  ]
