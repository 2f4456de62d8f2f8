-- ===== src/Base/Results.antt =====
-- A result or the text of an error, for Go's pairs of a value and an error.
use Prim.Native.String.{String}
use mathlib.Core.Path.{◌≡◌, refl}
use mathlib.Core.Logic.{◌⊎◌, inl, inr}

pub data Result {ℓ} (A : Type ℓ) : Type ℓ where
  err : (message : String) → Result A
  ok : A → Result A

module _ {ℓ} {A : Type ℓ} where
  pub Result-cases :
      (r : Result A) → ((message : String) × (r ≡ err message)) ⊎ ((a : A) × (r ≡ ok a))
  Result-cases (err message) = inl (message, refl)
  Result-cases (ok a) = inr (a, refl)

  pub ok-injective : {x y : A} → ok x ≡ ok y → x ≡ y
  ok-injective same = cc

  module _ {κ} {B : Type κ} where
    infixl 4 ◌>>=◌
    -- What comes after a call that may fail.
    abbrev pub ◌>>=◌ : Result A → (A → Result B) → Result B
    err message >>= next = err message
    ok value >>= next = next value

    -- A call with what comes after it went well: so did each of the two.
    pub bind-ok :
        (call : Result A) (next : A → Result B) {last : B}
        → (call >>= next) ≡ ok last
        → (value : A) × (call ≡ ok value) × (next value ≡ ok last)
    bind-ok (err message) next went = cc
    bind-ok (ok value) next went = (value, refl, went)
