-- ===== src/Js/Number/Numerals.antt =====
-- `Number(String(n))` is `n`.
use motionmesh.Base.{
  ℕ, ◌+◌, ◌-◌, ◌*◌, ◌≡◌, refl, false, some, List, [], ◌∷◌, arith, codes, show_nat,
}
use motionmesh.Base.Lists.{All}
use motionmesh.Base.Texts.Decimal.{IsDigit, value_from, IsDecimal, show_nat-IsDecimal}
use motionmesh.Js.Number.{
  nat, is_space, is_digit, trim_start, trim_end, scan, unsigned, whole_of, numeral, text_to_number,
}

is_space-IsDigit : (c : ℕ) → IsDigit c → is_space c ≡ false
is_space-IsDigit c (l, u) = ground arith

trim_start-digits : (s : List ℕ) → All IsDigit s → trim_start s ≡ s
unfolding trim_start
trim_start-digits [] h = refl
trim_start-digits (c ∷ s) (d, h) = rw (is_space-IsDigit c d) refl

trim_end-digits : (s : List ℕ) → All IsDigit s → trim_end s ≡ s
unfolding trim_end
trim_end-digits [] h = refl
trim_end-digits (c ∷ []) (d, h) = rw (is_space-IsDigit c d) refl
trim_end-digits (c ∷ e ∷ s) (d, h) = rw (trim_end-digits (e ∷ s) h) refl

scan-digits : (n : ℕ) (s : List ℕ) → All IsDigit s → scan n s ≡ some (value_from n s)
unfolding scan is_digit
scan-digits n [] h = refl
scan-digits n (c ∷ s) (d, h) = ground (arith, scan-digits (n * 10 + (c - 48)) s h)

numeral-IsDecimal : (n : ℕ) (s : List ℕ) → IsDecimal n s → numeral s ≡ nat n
unfolding numeral unsigned whole_of
numeral-IsDecimal n [] (h, some_digit, v) = absurd (some_digit refl)
numeral-IsDecimal n (c ∷ s) ((d, h), some_digit, v) =
    ground (arith, scan-digits 0 (c ∷ s) (d, h), v)

-- The print of a number is read back as that number.
pub text_to_number-show_nat : (n : ℕ) → text_to_number (show_nat n) ≡ nat n
unfolding text_to_number
text_to_number-show_nat n =
    let (digits, some_digit, v) = show_nat-IsDecimal n in
    rw (trim_start-digits (codes (show_nat n)) digits, trim_end-digits (codes (show_nat n)) digits)
      (numeral-IsDecimal n (codes (show_nat n)) (digits, some_digit, v))
