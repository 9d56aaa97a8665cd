-- ===== src/Base/Texts.antt =====
-- Texts: concatenation, tests, the decimal print of a number, and association lists keyed by
-- texts.
pub mod Decimal
use Prim.Native.Nat.{ℕ, zero, suc, ◌/◌, ◌%◌}
use Prim.Native.Char.{code}
use Prim.Native.String
use Prim.Native.String.{String}
use mathlib.Core.Path.{◌≡◌, refl}
use mathlib.Core.Bool.{Bool, true, false}
use mathlib.Core.Option.{Option, none, some}
use mathlib.Core.List.{List, [], ◌∷◌}
use text.Mathlib.Text.{◌==◌ as ◌=ˢ◌}
use motionmesh.Base.Tests.{ltb, if◌then◌else◌}

infixr 65 ◌⧺◌
-- The concatenation of two texts.
abbrev pub ◌⧺◌ : String → String → String
s ⧺ t = String.◌++◌ s t

abbrev pub str_eq : String → String → Bool
str_eq s t = s =ˢ t

abbrev pub is_empty : String → Bool
is_empty String.[] = true
is_empty (String.◌∷◌ c s) = false

-- `s || t` on texts.
abbrev pub or_else : String → String → String
or_else s t = if is_empty s then t else s

abbrev pub codes : String → List ℕ
codes String.[] = []
codes (String.◌∷◌ c s) = code c ∷ codes s

-- The print of one digit; numbers from 10 on do not occur.
unfoldable pub digit : ℕ → String
digit zero = "0"
digit (suc zero) = "1"
digit (suc (suc zero)) = "2"
digit (suc (suc (suc zero))) = "3"
digit (suc (suc (suc (suc zero)))) = "4"
digit (suc (suc (suc (suc (suc zero))))) = "5"
digit (suc (suc (suc (suc (suc (suc zero)))))) = "6"
digit (suc (suc (suc (suc (suc (suc (suc zero))))))) = "7"
digit (suc (suc (suc (suc (suc (suc (suc (suc zero)))))))) = "8"
digit n = "9"

show_from : ℕ → ℕ → String
show_from zero n = ""
show_from (suc fuel) n = elim (ltb n 10) [
  | true ↦ digit n
  | false ↦ show_from fuel (n / 10) ⧺ digit (n % 10)
]

-- `String(n)` of a whole number; a number has at most `n + 1` digits.
unfoldable pub show_nat : ℕ → String
unfolding show_from digit
show_nat n = show_from (suc n) n

module _ {ℓ} {V : Type ℓ} where
  -- `o[name]`: the first entry of that name.
  abbrev pub lookup : String → List (String × V) → Option V
  lookup name [] = none
  lookup name ((other, value) ∷ rest) = if other =ˢ name then some value else lookup name rest

  -- `o[name] = value` on an object: in place, or at its end.
  abbrev pub assign : String → V → List (String × V) → List (String × V)
  assign name value [] = (name, value) ∷ []
  assign name value ((other, old) ∷ rest) =
      let kept = assign name value rest in
      if other =ˢ name then (name, value) ∷ rest else (other, old) ∷ kept

  -- An object without a name.
  abbrev pub erase : String → List (String × V) → List (String × V)
  erase name [] = []
  erase name ((other, old) ∷ rest) =
      let kept = erase name rest in if other =ˢ name then kept else (other, old) ∷ kept

show_nat_test : show_nat 5242880 ≡ "5242880"
unfolding show_nat
show_nat_test = refl
