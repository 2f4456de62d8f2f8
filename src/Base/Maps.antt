-- ===== src/Base/Maps.antt =====
-- A Go map with string keys, seen through its lookups: a missing key reads as `none`.
use Prim.Native.String.{String}
use mathlib.Core.Path.{◌≡◌, ap}
use mathlib.Core.Bool.{true}
use mathlib.Core.Option.{Option, none, some}
use text.Mathlib.TextPositions.{eq_refl}
use go_lb.Base.Tests.{str_eq, if◌then◌else◌}

abbrev pub GoMap {ℓ} : Type ℓ → Type ℓ
GoMap V = String → Option V

module _ {ℓ} {V : Type ℓ} where
  abbrev pub empty_map : GoMap V
  empty_map k = none

  -- `m[k] = v`
  abbrev pub insert : GoMap V → String → V → GoMap V
  insert m k v j = if str_eq k j then some v else m j

  -- `delete(m, k)`
  abbrev pub delete : GoMap V → String → GoMap V
  delete m k j = if str_eq k j then none else m j

  -- `m[k]` of a map whose element type has the zero value `d`
  abbrev pub get_or : Option V → V → V
  get_or none d = d
  get_or (some v) d = v

  pub some-injective : {a b : V} → some a ≡ some b → a ≡ b
  some-injective {a = a} e = ap (λ o. get_or o a) e

  pub insert_self : (m : GoMap V) (k : String) (v : V) → insert m k v k ≡ some v
  insert_self m k v = rw (eq_refl k)

pub str_eq_refl : (s : String) → str_eq s s ≡ true
str_eq_refl s = eq_refl s
