-- ===== src/Js/Base64.antt =====
-- `atob`: a text in base 64 as the text of its bytes, one code point for each.
use Prim.Native.Char.{Char, char, IsScalar}
use Prim.Native.Nat.{compare, Ordering}
use native.Mathlib.Decide.{dec_lt}
use motionmesh.Base.{
  ℕ, ◌+◌, ◌-◌, ◌*◌, ◌/◌, ◌%◌, ◌<◌, ◌≡◌, refl, Bool, ◌&&◌, ◌||◌, Option, none, some, String, List,
  [], ◌∷◌, arith, leb, ◌==◌, if◌then◌else◌, length, codes,
}

below_surrogates : (n : ℕ) → n < 55296 → compare n 55296 ≡ Ordering.lt
below_surrogates n h = ground arith

pub IsScalar-of_lt : (n : ℕ) → n < 55296 → IsScalar n
IsScalar-of_lt n h = rw (below_surrogates n h) tt

-- The character of a code point; those of bytes are all below the bound.
chr : ℕ → Char
chr n = elim (dec_lt n 55296) [ yes h ↦ char n (IsScalar-of_lt n h) | no _ ↦ char 63 tt ]

unfoldable pub of_codes : List ℕ → String
unfolding chr dec_lt
of_codes [] = ""
of_codes (c ∷ s) = String.◌∷◌ (chr c) (of_codes s)

is_blank : ℕ → Bool
is_blank c = c == 9 || c == 10 || c == 12 || c == 13 || c == 32

without_blanks : List ℕ → List ℕ
without_blanks [] = []
without_blanks (c ∷ s) = let rest = without_blanks s in if is_blank c then rest else c ∷ rest

-- Up to two `=` at the end; longer runs are left, and are no digits.
drop_padding : List ℕ → List ℕ
drop_padding [] = []
drop_padding (a ∷ []) = if a == b'=' then [] else a ∷ []
drop_padding (a ∷ b ∷ []) = if b == b'=' then (if a == b'=' then [] else a ∷ []) else a ∷ b ∷ []
drop_padding (a ∷ b ∷ c ∷ s) = a ∷ drop_padding (b ∷ c ∷ s)

unpadded : List ℕ → List ℕ
unfolding drop_padding
unpadded s = if length s % 4 == 0 then drop_padding s else s

sextet : ℕ → Option ℕ
sextet c =
    if leb b'A' c && leb c b'Z'
    then some (c - b'A')
    else if leb b'a' c && leb c b'z'
    then some (c - b'a' + 26)
    else if leb b'0' c && leb c b'9'
    then some (c - b'0' + 52)
    else if c == b'+'
    then some 62
    else if c == b'/'
    then some 63
    else none

cons_sextet : Option ℕ → Option (List ℕ) → Option (List ℕ)
cons_sextet (some a) (some s) = some (a ∷ s)
cons_sextet _ _ = none

sextets : List ℕ → Option (List ℕ)
sextets [] = some []
sextets (c ∷ s) = cons_sextet (sextet c) (sextets s)

-- Four digits make three bytes, three make two, two make one; one alone is an error.
decode : List ℕ → Option (List ℕ)
decode [] = some []
decode (a ∷ []) = none
decode (a ∷ b ∷ []) = some ((a * 4 + b / 16) ∷ [])
decode (a ∷ b ∷ c ∷ []) = some ((a * 4 + b / 16) ∷ (b % 16 * 16 + c / 4) ∷ [])
decode (a ∷ b ∷ c ∷ d ∷ s) =
    prepend (a * 4 + b / 16) (b % 16 * 16 + c / 4) (c % 4 * 64 + d) (decode s)
  where
    prepend : ℕ → ℕ → ℕ → Option (List ℕ) → Option (List ℕ)
    prepend x y z none = none
    prepend x y z (some bs) = some (x ∷ y ∷ z ∷ bs)

decode_digits : Option (List ℕ) → Option (List ℕ)
decode_digits none = none
decode_digits (some s) = decode s

-- The code points of `atob(text)`, or none where it throws.
unfoldable pub atob : String → Option (List ℕ)
unfolding without_blanks is_blank unpadded sextets sextet cons_sextet decode decode_digits
atob s = decode_digits (sextets (unpadded (without_blanks (codes s))))

atob_test : (atob "YWNjOnZpZA==" ≡ some (codes "acc:vid")) × (atob "a" ≡ none) × (atob "a?" ≡ none)
unfolding atob
atob_test = (refl, refl, refl)

of_codes_test : of_codes (codes "acc") ≡ "acc"
unfolding of_codes
of_codes_test = refl
