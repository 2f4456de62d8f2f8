-- ===== src/Main/Hangup.antt =====
-- cmd/golb/main.go: what a SIGHUP does.
use go_lb.Base.{
  none, ok-injective, ◌<◌, String, ◌≡◌, sym, ap, ◌∙◌, ◌≢◌, ◌⊎◌, inl, inr, List, [], arith, ◌==◌,
  str_eq, Bool-cases, Option-cases, length, All, ok, Result-cases,
}
use go_lb.Algo
use go_lb.Config.{Config}
use go_lb.Config.Valid
use go_lb.Config.Valid.{load-Valid}
use go_lb.Config.Load.{load_file}
use go_lb.Config.Load.{Reading}
use go_lb.Reload.{compute_diff, apply}
use go_lb.Reload.Apply.{apply-empty, apply-cases}
use go_lb.Reload.Diffs.{compute_diff-same, configured}
use go_lb.Main.Start.{System}
use go_lb.Main.Run.{Outside, running, with_running, reload, on_hangup}

-- What the checks of the handler ask of the file.
pub record Accepted (out : Outside) (read : String → Reading) (s : System) (cfg : Config)
    : Type 0 where
  pub loaded : load_file out.library out.shell read s.cfg_path ≡ ok cfg
  pub some_backend : 0 < length cfg.pool.backends
  pub known_algorithm : Algo.new cfg.pool.algorithm ≢ none

-- A reload that was made: the file's configuration, accepted and valid, is the current one.
pub record Reloaded (out : Outside) (read : String → Reading) (s s' : System) : Type 0 where
  pub cfg : Config
  pub accepted : Accepted out read s cfg
  pub valid : Valid.Valid cfg
  pub current : s'.current ≡ cfg

module _ (out : Outside) where
  reload-same :
      (old_keys new_keys : List String) (s : System)
      → All (λ u. configured s.current u ≢ none) old_keys
      → reload out s.current old_keys new_keys s ≡ s
  unfolding reload
  reload-same old_keys new_keys s keys = ground (
    arith,
    apply-empty out.os.parse (compute_diff s.current s.current old_keys new_keys) (running s)
        (compute_diff-same s.current old_keys new_keys keys),
  )

  -- A reload is refused and changes nothing, or what `Apply` did is kept with the configuration.
  pub reload-cases :
      (cfg : Config) (old_keys new_keys : List String) (s : System)
      → let a = apply out.os.parse (compute_diff s.current cfg old_keys new_keys) (running s) in
        (reload out cfg old_keys new_keys s ≡ s)
        ⊎ ((a.1 ≡ none)
            × (reload out cfg old_keys new_keys s ≡ record (with_running a.0 s) { current = cfg }))
  unfolding reload
  reload-cases cfg old_keys new_keys s =
      elim (apply-cases out.os.parse (compute_diff s.current cfg old_keys new_keys) (running s)) [
        | inl (e, at) ↦ inl (ground (arith, at))
        | inr (us, a, at, parsed) ↦ inr (ground (arith, at), ground (arith, at))
      ]

  -- A SIGHUP changes nothing, or reloads the configuration that the file holds.
  pub on_hangup-cases :
      (read : String → Reading) (old_keys new_keys : List String) (s : System)
      → (on_hangup out read old_keys new_keys s ≡ s)
        ⊎ ((cfg : Config) × Accepted out read s cfg
            × (on_hangup out read old_keys new_keys s ≡ reload out cfg old_keys new_keys s))
  unfolding on_hangup
  on_hangup-cases read old_keys new_keys s = elim (Bool-cases (str_eq s.cfg_path "")) [
    | inl none' ↦ inl (ground (arith, none'))
    | inr path ↦ elim (Result-cases (load_file out.library out.shell read s.cfg_path)) [
      | inl (m, e) ↦ inl (ground (arith, path, e))
      | inr (cfg, e) ↦ elim (Bool-cases (length cfg.pool.backends == 0)) [
        | inl empty ↦ inl (ground (arith, path, e, empty))
        | inr some' ↦ elim (Option-cases (Algo.new cfg.pool.algorithm)) [
          | inl unknown ↦ inl (ground (arith, path, e, some', unknown))
          | inr (a, known) ↦ inr (
            cfg,
            record {
              loaded = e;
              some_backend = ground (arith, some');
              known_algorithm = λ none'. absurd (ground (arith, known, none'));
            },
            ground (arith, path, e, some', known),
          )
        ]
      ]
    ]
  ]

  -- A SIGHUP that is refused, for any reason, changes nothing; one that is not leaves the
  -- configuration of the file as the current one, and that is valid, has a backend, and names a known
  -- algorithm.
  pub on_hangup-Reloaded :
      (read : String → Reading) (old_keys new_keys : List String) (s : System)
      → (on_hangup out read old_keys new_keys s ≡ s)
        ⊎ Reloaded out read s (on_hangup out read old_keys new_keys s)
  unfolding load_file
  on_hangup-Reloaded read old_keys new_keys s = elim (on_hangup-cases read old_keys new_keys s) [
    | inl e ↦ inl e
    | inr (cfg, accepted, e) ↦ elim (reload-cases cfg old_keys new_keys s) [
      | inl same ↦ inl (e ∙ same)
      | inr (made, new) ↦ inr (record {
        cfg = cfg;
        accepted = accepted;
        valid = load-Valid out.library out.shell read s.cfg_path [] cfg accepted.loaded;
        current = ap (λ x. x.current) (e ∙ new);
      })
    ]
  ]

  -- A SIGHUP for a file that loads to the current configuration changes nothing, in whatever order Go
  -- goes through the keys of the maps.
  pub on_hangup-same :
      (read : String → Reading) (old_keys new_keys : List String) (s : System)
      → load_file out.library out.shell read s.cfg_path ≡ ok s.current
      → All (λ u. configured s.current u ≢ none) old_keys
      → on_hangup out read old_keys new_keys s ≡ s
  on_hangup-same read old_keys new_keys s same keys =
      elim (on_hangup-cases read old_keys new_keys s) [
        | inl e ↦ e
        | inr (cfg, accepted, e) ↦
            e
            ∙ ap (λ c. reload out c old_keys new_keys s) (ok-injective (sym accepted.loaded ∙ same))
            ∙ reload-same old_keys new_keys s keys
      ]
