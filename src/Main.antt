-- ===== src/Main.antt =====
-- cmd/golb/main.go: the arguments that `main` takes out before the flags are parsed. The children
-- are the start, the running program, and the servers.
pub mod Flags
pub mod Start
pub mod Run
pub mod Counted
pub mod Invariant
pub mod Served
pub mod Hangup
pub mod Register
pub mod Ready
pub mod Launch
pub mod Live
pub mod Sync
pub mod Listeners
pub mod Shutdown
use Prim.Native.String.{slice, len}
use text.Mathlib.Text.{starts_with}
use go_lb.Base.{◌||◌, String, Option, none, some, List, [], ◌∷◌, ◌++◌, str_eq, if◌then◌else◌}

-- `strings.CutPrefix`, with `none` for false.
abbrev pub cut_prefix : String → String → Option String
cut_prefix s prefix = if starts_with s prefix then some (slice s (len prefix) (len s)) else none

-- The three results.
pub record Extracted : Type 0 where
  pub path : String
  pub rest : List String
  pub error : Option String

abbrev pub refused : String → Extracted
refused message = record { path = ""; rest = []; error = some message }

abbrev pub found : String → List String → Extracted
found path rest = record { path = path; rest = rest; error = none }

-- `--config path`: the argument after `a`.
unfoldable pub separate : List String → String → List String → Extracted
separate before a [] = refused "flag requires an argument"
separate before a (path ∷ after) = found path (before ++ after)

-- `--config=path`: what follows the sign.
unfoldable pub joined : List String → String → List String → Extracted
joined before path after =
    if str_eq path ""
    then refused "flag requires a non-empty path"
    else found path (before ++ after)

-- The loop, with `before` for `args[:i]`. The messages do not repeat the flag.
unfoldable pub extract_from : List String → List String → Extracted
extract_from before [] = found "" before
extract_from before (a ∷ after) =
    let next = extract_from (before ++ a ∷ []) after in
    if str_eq a "--config" || str_eq a "-config"
    then separate before a after
    else elim (cut_prefix a "--config=") [
      | some path ↦ joined before path after
      | none ↦ elim (cut_prefix a "-config=") [ some path ↦ joined before path after | none ↦ next ]
    ]

unfoldable pub extract_config_flag : List String → Extracted
extract_config_flag args = extract_from [] args
