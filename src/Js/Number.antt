-- ===== src/Js/Number.antt =====
-- JavaScript numbers, as far as the client code uses them: whole numbers and NaN. Fractions,
-- infinities and -0 are left out, and whole numbers are exact at any size.
pub mod Numerals
use motionmesh.Base.{
  ℕ, zero, suc, ◌+◌, ◌-◌, ◌*◌, ◌≡◌, refl, Bool, true, false, ◌&&◌, ◌||◌, Option, none, some, List,
  [], ◌∷◌, String, leb, ◌==◌, if◌then◌else◌, codes, show_nat, ◌⧺◌,
}
use motionmesh.Base.Ints.{ℤ, pos, negsuc, ◌+ℤ◌, ◌-ℤ◌, ◌*ℤ◌, leb_ℤ}

pub data Number : Type 0 where
  whole : ℤ → Number
  nan : Number

abbrev pub nat : ℕ → Number
nat n = whole (pos n)

-- Only 0 and NaN are falsy.
abbrev pub is_truthy_number : Number → Bool
is_truthy_number (whole (pos zero)) = false
is_truthy_number (whole (pos (suc n))) = true
is_truthy_number (whole (negsuc n)) = true
is_truthy_number nan = false

-- `n > 0`
abbrev pub is_positive : Number → Bool
is_positive (whole (pos zero)) = false
is_positive (whole (pos (suc n))) = true
is_positive (whole (negsuc n)) = false
is_positive nan = false

abbrev pub lift : (ℤ → ℤ → ℤ) → Number → Number → Number
lift f (whole a) (whole b) = whole (f a b)
lift f (whole a) nan = nan
lift f nan b = nan

abbrev pub add : Number → Number → Number
add = lift ◌+ℤ◌

abbrev pub subtract : Number → Number → Number
subtract = lift ◌-ℤ◌

abbrev pub multiply : Number → Number → Number
multiply = lift ◌*ℤ◌

-- `Math.min`
abbrev pub minimum : Number → Number → Number
minimum = lift (λ a b. if leb_ℤ a b then a else b)

-- `String(n)`
unfoldable pub show_number : Number → String
show_number (whole (pos n)) = show_nat n
show_number (whole (negsuc n)) = "-" ⧺ show_nat (suc n)
show_number nan = "NaN"

-- The white space and line ends that `Number(text)` and `text.trim()` leave out.
abbrev pub is_space : ℕ → Bool
is_space c =
    (leb 9 c && leb c 13)
    || c == 32
    || c == 160
    || c == 5760
    || (leb 8192 c && leb c 8202)
    || c == 8232
    || c == 8233
    || c == 8239
    || c == 8287
    || c == 12288
    || c == 65279

trim_start : List ℕ → List ℕ
trim_start [] = []
trim_start (c ∷ s) = if is_space c then trim_start s else c ∷ s

-- A trailing run of spaces is dropped: the tail is trimmed first.
trim_end : List ℕ → List ℕ
trim_end [] = []
trim_end (c ∷ s) = let rest = trim_end s in keep c rest
  where
    keep : ℕ → List ℕ → List ℕ
    keep d [] = if is_space d then [] else d ∷ []
    keep d (e ∷ r) = d ∷ e ∷ r

pub is_digit : ℕ → Bool
is_digit c = leb b'0' c && leb c b'9'

scan : ℕ → List ℕ → Option ℕ
scan n [] = some n
scan n (c ∷ s) = let rest = scan (n * 10 + (c - b'0')) s in if is_digit c then rest else none

whole_of : (ℕ → ℤ) → Option ℕ → Number
whole_of f none = nan
whole_of f (some n) = whole (f n)

negate : ℕ → ℤ
negate zero = pos 0
negate (suc n) = negsuc n

-- The digits after an optional sign; no digit at all is no numeral.
unsigned : (ℕ → ℤ) → List ℕ → Number
unsigned f [] = nan
unsigned f (c ∷ s) = whole_of f (scan 0 (c ∷ s))

numeral : List ℕ → Number
numeral [] = nat 0
numeral (c ∷ s) =
    if c == b'-'
    then unsigned negate s
    else if c == b'+'
    then unsigned pos s
    else unsigned pos (c ∷ s)

-- `Number(text)` for the texts of whole numbers in decimal and for texts that are no numeral.
unfoldable pub text_to_number : String → Number
unfolding numeral unsigned whole_of negate scan is_digit trim_start trim_end
text_to_number s = numeral (trim_end (trim_start (codes s)))

text_to_number_test :
    (text_to_number " 5242880 " ≡ nat 5242880)
    × (text_to_number "" ≡ nat 0)
    × (text_to_number "-7" ≡ whole (negsuc 6))
    × (text_to_number "7b" ≡ nan)
unfolding text_to_number
text_to_number_test = (refl, refl, refl, refl)
