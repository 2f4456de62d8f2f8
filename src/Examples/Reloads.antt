-- ===== src/Examples/Reloads.antt =====
-- internal/middleware and cmd/golb: a chain, and arguments.
use go_lb.Main.Flags.{Other, extract_config_flag_lem}
use go_lb.Middleware.{chain, nested, chain-nested}
use go_lb.Base.{ℕ, ◌+◌, ◌*◌, String, ◌≡◌, refl, some, [], ◌∷◌, ◌++◌, All}
use go_lb.Main.{found, extract_config_flag}

chain-nested_example :
    chain ℕ 5 ((λ n. n * 2) ∷ (λ n. n + 1) ∷ []) ≡ nested ℕ 5 ((λ n. n * 2) ∷ (λ n. n + 1) ∷ [])
chain-nested_example = chain-nested ℕ 5 ((λ n. n * 2) ∷ (λ n. n + 1) ∷ [])

port-Other : All Other ("-port" ∷ "80" ∷ [])
port-Other = ((refl, refl, refl), ((refl, refl, refl), tt))

extract_config_flag_lem_example :
    (extract_config_flag (("-port" ∷ "80" ∷ []) ++ []) ≡ found "" ("-port" ∷ "80" ∷ []))
    × (extract_config_flag (("-port" ∷ "80" ∷ []) ++ "--config" ∷ "" ∷ [])
        ≡ found "" (("-port" ∷ "80" ∷ []) ++ []))
    × ((e : String) × ((extract_config_flag (("-port" ∷ "80" ∷ []) ++ "--config" ∷ [])).error
          ≡ some e))
extract_config_flag_lem_example = extract_config_flag_lem ("-port" ∷ "80" ∷ []) [] "" port-Other
