-- ===== src/Reload/Diffs.antt =====
-- internal/reload/reload.go: what the difference of two configurations holds.
use go_lb.Base.{
  String, ◌≡◌, refl, ◌≢◌, inl, inr, true, false, Option, none, List, [], ◌∷◌, arith, Option-cases,
  All, In, here, there, GoMap, empty_map, str_eq_refl,
}
use go_lb.Reload.{added_changed, removed, by_url, compute_diff, health_differs, tls_differs, empty}
use go_lb.Config.{BackendConfig, Config, HealthCheckConfig, TlsConfig}

-- The configuration that the map of a list holds at a URL.
abbrev pub configured : Config → String → Option BackendConfig
configured c = by_url c.pool.backends empty_map

removed-In :
    (new : GoMap BackendConfig) (keys : List String) (u : String)
    → In u keys
    → new u ≡ none
    → In u (removed new keys)
unfolding removed
removed-In new [] u m e = elim m [ ]
removed-In new (k ∷ ks) u here e = rw (e, removed) here
removed-In new (k ∷ ks) u (there m) e = elim (Option-cases (new k)) [
  | inl gone ↦ rw (gone, removed) (there (removed-In new ks u m e))
  | inr (c, kept) ↦ rw (kept, removed) (removed-In new ks u m e)
]

head-gone :
    (new : GoMap BackendConfig) (k : String) {u : String} {ks us : List String}
    → new k ≡ none
    → (In u us → In u ks × (new u ≡ none))
    → In u (k ∷ us)
    → In u (k ∷ ks) × (new u ≡ none)
head-gone new k gone f here = (here, gone)
head-gone new k gone f (there m) = let (i, g) = f m in (there i, g)

removed-gone :
    (new : GoMap BackendConfig) (keys : List String) (u : String)
    → In u (removed new keys)
    → In u keys × (new u ≡ none)
unfolding removed
removed-gone new [] u m = elim m [ ]
removed-gone new (k ∷ ks) u m = elim (Option-cases (new k)) [
  | inl gone ↦ head-gone new k gone (removed-gone new ks u) (rw (gone, removed) at m)
  | inr (c, kept) ↦ let (i, g) = removed-gone new ks u (rw (kept, removed) at m) in (there i, g)
]

added_changed-same :
    (m : GoMap BackendConfig) (keys : List String) → added_changed m m keys ≡ ([], [])
unfolding added_changed
added_changed-same m [] = refl
added_changed-same m (k ∷ ks) = ground (arith, added_changed-same m ks)

removed-same :
    (m : GoMap BackendConfig) (keys : List String)
    → All (λ u. m u ≢ none) keys
    → removed m keys ≡ []
unfolding removed
removed-same m [] a = refl
removed-same m (k ∷ ks) a = ground (arith, a.0, removed-same m ks a.1)

health_differs-same : (h : HealthCheckConfig) → health_differs h h ≡ false
unfolding health_differs
health_differs-same h = ground (arith, str_eq_refl h.path)

tls_differs-same : (t : TlsConfig) → tls_differs t t ≡ false
unfolding tls_differs
tls_differs-same t =
    ground (arith, str_eq_refl t.cert_file, str_eq_refl t.key_file, str_eq_refl t.min_version)

-- The difference of a configuration and itself is empty, in whatever order Go goes through the keys
-- of its two maps.
pub compute_diff-same :
    (c : Config) (old_keys new_keys : List String)
    → All (λ u. configured c u ≢ none) old_keys
    → empty (compute_diff c c old_keys new_keys) ≡ true
unfolding empty compute_diff
compute_diff-same c old_keys new_keys a = rw (
  added_changed-same (configured c) new_keys,
  removed-same (configured c) old_keys a,
  health_differs-same c.health_check,
  tls_differs-same c.tls,
  str_eq_refl c.pool.algorithm,
)
