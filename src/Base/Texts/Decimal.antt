-- ===== src/Base/Texts/Decimal.antt =====
-- The decimal print of a number: digits, at least one, whose value is the number.
use Prim.Native.Nat.{ℕ, zero, suc, ◌+◌, ◌-◌, ◌*◌, ◌/◌, ◌%◌, ◌<◌, ◌≤◌}
use Prim.Native.Char.{code}
use Prim.Native.String.append
use Prim.Native.String.{String}
use mathlib.Core.Path.{◌≡◌, refl, ap, ◌∙◌}
use mathlib.Core.Logic.{◌≢◌, inl, inr}
use mathlib.Core.Bool.{true, false}
use mathlib.Core.List.{List, [], ◌∷◌, ◌++◌}
use native.Mathlib.Omega.{arith}
use motionmesh.Base.Tests.{ltb, Bool-cases}
use motionmesh.Base.Lists.{All, All-append}
use motionmesh.Base.Texts.{◌⧺◌, codes, digit, show_from, show_nat}

abbrev pub IsDigit : ℕ → Type 0
IsDigit c = (48 ≤ c) × (c ≤ 57)

-- The value of digits after those of a number.
abbrev pub value_from : ℕ → List ℕ → ℕ
value_from n [] = n
value_from n (c ∷ s) = value_from (n * 10 + (c - 48)) s

abbrev pub IsDecimal : ℕ → List ℕ → Type 0
IsDecimal n s = All IsDigit s × (s ≢ []) × (value_from 0 s ≡ n)

codes-digit : (d : ℕ) → d < 10 → codes (digit d) ≡ (48 + d) ∷ []
unfolding digit
codes-digit zero h = refl
codes-digit (suc zero) h = refl
codes-digit (suc (suc zero)) h = refl
codes-digit (suc (suc (suc zero))) h = refl
codes-digit (suc (suc (suc (suc zero)))) h = refl
codes-digit (suc (suc (suc (suc (suc zero))))) h = refl
codes-digit (suc (suc (suc (suc (suc (suc zero)))))) h = refl
codes-digit (suc (suc (suc (suc (suc (suc (suc zero))))))) h = refl
codes-digit (suc (suc (suc (suc (suc (suc (suc (suc zero)))))))) h = refl
codes-digit (suc (suc (suc (suc (suc (suc (suc (suc (suc zero))))))))) h = refl
codes-digit (suc (suc (suc (suc (suc (suc (suc (suc (suc (suc n)))))))))) h = absurd (omega arith)

pub codes-append : (s t : String) → codes (s ⧺ t) ≡ codes s ++ codes t
codes-append String.[] t = ap codes (append.nil t)
codes-append (String.◌∷◌ c s) t =
    ap codes (append.cons c s t) ∙ ap (λ l. code c ∷ l) (codes-append s t)

value_from-append :
    (n : ℕ) (s : List ℕ) (c : ℕ) → value_from n (s ++ (c ∷ [])) ≡ value_from n s * 10 + (c - 48)
value_from-append n [] c = refl
value_from-append n (d ∷ s) c = value_from-append (n * 10 + (d - 48)) s c

append-ne-nil : (s : List ℕ) (c : ℕ) → s ++ (c ∷ []) ≢ []
append-ne-nil [] c e = cc
append-ne-nil (d ∷ s) c e = cc

IsDecimal-append :
    (m d : ℕ) (s : List ℕ) → d < 10 → IsDecimal m s → IsDecimal (m * 10 + d) (s ++ ((48 + d) ∷ []))
IsDecimal-append m d s h (digits, some_digit, value) = (
  All-append IsDigit s ((48 + d) ∷ []) digits (omega arith),
  append-ne-nil s (48 + d),
  omega (arith, value_from-append 0 s (48 + d), value),
)

IsDecimal-digit : (d : ℕ) → d < 10 → IsDecimal d (codes (digit d))
IsDecimal-digit d h = rw (codes-digit d h) (omega arith, append-ne-nil [] (48 + d), omega arith)

show_from-small : (fuel n : ℕ) → ltb n 10 ≡ true → show_from (suc fuel) n ≡ digit n
unfolding show_from
show_from-small fuel n h = rw (h, show_from) refl

show_from-large :
    (fuel n : ℕ)
    → ltb n 10 ≡ false
    → show_from (suc fuel) n ≡ show_from fuel (n / 10) ⧺ digit (n % 10)
unfolding show_from
show_from-large fuel n h = ground arith

show_from-IsDecimal : (fuel n : ℕ) → n < fuel → IsDecimal n (codes (show_from fuel n))
show_from-IsDecimal zero n h = absurd (omega arith)
show_from-IsDecimal (suc fuel) n h = elim (Bool-cases (ltb n 10)) [
  | inl small ↦ rw (show_from-small fuel n small) (IsDecimal-digit n (ground arith))
  | inr large ↦
      let more : IsDecimal (n / 10 * 10 + n % 10)
          (codes (show_from fuel (n / 10)) ++ ((48 + n % 10) ∷ [])) =
        IsDecimal-append (n / 10) (n % 10) _ (omega arith)
          (show_from-IsDecimal fuel (n / 10) (ground arith)) in
      let e : n / 10 * 10 + n % 10 ≡ n = omega arith in
      rw
        (
          show_from-large fuel n large,
          codes-append (show_from fuel (n / 10)) (digit (n % 10)),
          codes-digit (n % 10) (omega arith),
        )
        (rw e at more)
]

-- A number's print is digits, at least one, of that value.
pub show_nat-IsDecimal : (n : ℕ) → IsDecimal n (codes (show_nat n))
unfolding show_nat
show_nat-IsDecimal n = show_from-IsDecimal (suc n) n (omega arith)
