-- ===== src/Main/Flags.antt =====
-- cmd/golb/main.go: what `extractConfigFlag` takes out of the arguments.
use mathlib.Core.List.{append-nil, append_assoc}
use go_lb.Main.{extract_from, extract_config_flag, separate, found}
use text.Mathlib.Text.{starts_with}
use go_lb.Base.{
  some, ◌||◌, String, ◌≡◌, refl, ◌∙◌, false, List, [], ◌∷◌, ◌++◌, str_eq, All, ap, sym,
}

-- An argument that is no form of the flag.
abbrev pub Other : String → Type 0
Other a =
    ((str_eq a "--config" || str_eq a "-config") ≡ false)
    × (starts_with a "--config=" ≡ false)
    × (starts_with a "-config=" ≡ false)

extract_from-Other :
    (before : List String) (a : String) (after : List String)
    → Other a
    → extract_from before (a ∷ after) ≡ extract_from (before ++ a ∷ []) after
unfolding extract_from
extract_from-Other before a after o = rw (o.0, o.1, o.2) refl

extract_from_others :
    (before others after : List String)
    → All Other others
    → extract_from before (others ++ after) ≡ extract_from (before ++ others) after
extract_from_others before [] after o = ap (λ l. extract_from l after) (sym (append-nil before))
extract_from_others before (a ∷ others) after o =
    extract_from-Other before a (others ++ after) o.0
    ∙ (extract_from_others (before ++ a ∷ []) others after o.1
        ∙ ap (λ l. extract_from l after) (append_assoc before (a ∷ []) others))

after_others :
    (before after : List String)
    → All Other before
    → extract_config_flag (before ++ after) ≡ extract_from before after
unfolding extract_config_flag
after_others before after o = extract_from_others [] before after o

extract_from-separate :
    (before : List String) (path : String) (after : List String)
    → extract_from before ("--config" ∷ path ∷ after) ≡ found path (before ++ after)
unfolding extract_from separate
extract_from-separate before path after = refl

extract_from-bare :
    (before : List String) → (e : String) × ((extract_from before ("--config" ∷ [])).error ≡ some e)
unfolding extract_from separate
extract_from-bare before = ("flag requires an argument", refl)

extract_from-nothing : (before : List String) → extract_from before [] ≡ found "" before
unfolding extract_from
extract_from-nothing before = refl

-- Arguments that are no form of the flag are all kept, and no path is found. The first `--config`
-- after them is taken out with the argument behind it, which is the path, whatever it is: the empty
-- text too, which is no error. A `--config` at the end is an error.
pub extract_config_flag_lem :
    (before after : List String) (path : String)
    → All Other before
    → (extract_config_flag (before ++ []) ≡ found "" before)
      × (extract_config_flag (before ++ "--config" ∷ path ∷ after) ≡ found path (before ++ after))
      × ((e : String) × ((extract_config_flag (before ++ "--config" ∷ [])).error ≡ some e))
extract_config_flag_lem before after path o =
    let (e, bare) = extract_from-bare before in
    (
      after_others before [] o ∙ extract_from-nothing before,
      after_others before ("--config" ∷ path ∷ after) o ∙ extract_from-separate before path after,
      (e, ap (λ x. x.error) (after_others before ("--config" ∷ []) o) ∙ bare),
    )
