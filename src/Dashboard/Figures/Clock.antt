-- ===== src/Dashboard/Figures/Clock.antt =====
-- What a duration is shown as can be read back.
use Prim.Native.String.append
use mathlib.Core.List.{append-nil}
use motionmesh.Base.{
  ℕ, zero, suc, ◌+◌, ◌-◌, ◌*◌, ◌/◌, ◌%◌, ◌<◌, ◌≡◌, refl, true, false, String, List, [], ◌∷◌, ◌++◌,
  arith, ltb, ◌==◌, if◌then◌else◌, ◌⧺◌, show_nat, codes, Bool-cases, inl, inr,
}
use motionmesh.Base.Lists.{All}
use motionmesh.Base.Texts.Decimal.{IsDigit, value_from, codes-append, show_nat-IsDecimal}
use motionmesh.Dashboard.Figures.{
  number, text, is_shown, show_part, shown_parts, join_colon, minutes_part, seconds_part,
  format_duration,
}

-- The number that a text of fields with colons between them stands for, each field counting sixty
-- times the next one.
abbrev pub clock_from : ℕ → ℕ → List ℕ → ℕ
clock_from total field [] = total * 60 + field
clock_from total field (c ∷ s) =
    if c == b':'
    then clock_from (total * 60 + field) 0 s
    else clock_from total (field * 10 + (c - b'0')) s

unfoldable pub read_clock : String → ℕ
read_clock s = clock_from 0 0 (codes s)

clock_from-digits :
    (total field : ℕ) (ds rest : List ℕ)
    → All IsDigit ds
    → clock_from total field (ds ++ rest) ≡ clock_from total (value_from field ds) rest
clock_from-digits total field [] rest h = refl
clock_from-digits total field (c ∷ ds) rest (d, h) =
    let more = clock_from-digits total (field * 10 + (c - b'0')) ds rest h in
    let other : (c == b':') ≡ false = ground (arith, d) in rw other more

abbrev pub HasValue : ℕ → String → Type 0
HasValue n s = All IsDigit (codes s) × (value_from 0 (codes s) ≡ n)

show_nat-HasValue : (n : ℕ) → HasValue n (show_nat n)
show_nat-HasValue n = let (digits, _, value) = show_nat-IsDecimal n in (digits, value)

padded-HasValue : (n : ℕ) → HasValue n ("0" ⧺ show_nat n)
padded-HasValue n =
    let (digits, value) = show_nat-HasValue n in
    rw (codes-append "0" (show_nat n)) ((omega arith, digits), value)

clock_from-last :
    (total n : ℕ) (s : String) → HasValue n s → clock_from total 0 (codes s) ≡ total * 60 + n
clock_from-last total n s (digits, value) =
    let e = clock_from-digits total 0 (codes s) [] digits in rw (append-nil (codes s), value) at e

clock_from-field :
    (total n : ℕ) (s rest : String)
    → HasValue n s
    → clock_from total 0 (codes (s ⧺ (":" ⧺ rest))) ≡ clock_from (total * 60 + n) 0 (codes rest)
clock_from-field total n s rest (digits, value) =
    rw
      (
        codes-append s (":" ⧺ rest),
        codes-append ":" rest,
        clock_from-digits total 0 (codes s) (b':' ∷ codes rest) digits,
        value,
      )
      refl

minutes-HasValue : (h m : ℕ) → HasValue m (show_part (minutes_part h m))
minutes-HasValue h m = elim (Bool-cases (ltb 9 m)) [
  | inl k ↦ rw k (show_nat-HasValue m)
  | inr k ↦ elim (Bool-cases (ltb 0 h)) [
    | inl l ↦ rw (k, l) (padded-HasValue m)
    | inr l ↦ elim (Bool-cases (ltb 0 m)) [
      | inl n ↦ rw (k, l, n) (show_nat-HasValue m)
      | inr n ↦ let e : m ≡ 0 = ground arith in rw (k, l, e) (omega arith)
    ]
  ]
]

seconds-HasValue : (s : ℕ) → HasValue s (show_part (seconds_part s))
seconds-HasValue s = elim (Bool-cases (ltb 9 s)) [
  | inl k ↦ rw k (show_nat-HasValue s)
  | inr k ↦ rw k (padded-HasValue s)
]

is_shown-padded : (n : ℕ) → is_shown (text ("0" ⧺ show_nat n)) ≡ true
is_shown-padded n = rw (append.cons "0" String.[] (show_nat n)) refl

is_shown-large : (n : ℕ) → 0 < n → is_shown (number n) ≡ true
is_shown-large zero h = absurd (omega arith)
is_shown-large (suc n) h = refl

not_shown : (n : ℕ) → is_shown (number n) ≡ false → n ≡ 0
not_shown zero h = refl
not_shown (suc n) h = absurd cc

is_shown-minutes : (h m : ℕ) → is_shown (minutes_part h m) ≡ true
is_shown-minutes h m = elim (Bool-cases (ltb 9 m)) [
  | inl k ↦ rw k (is_shown-large m (ground arith))
  | inr k ↦ elim (Bool-cases (ltb 0 h)) [
    | inl l ↦ rw (k, l) (is_shown-padded m)
    | inr l ↦ elim (Bool-cases (ltb 0 m)) [
      | inl n ↦ rw (k, l, n) (is_shown-large m (ground arith))
      | inr n ↦ rw (k, l, n) refl
    ]
  ]
]

is_shown-seconds : (s : ℕ) → is_shown (seconds_part s) ≡ true
is_shown-seconds s = elim (Bool-cases (ltb 9 s)) [
  | inl k ↦ rw k (is_shown-large s (ground arith))
  | inr k ↦ rw k (is_shown-padded s)
]

read_clock-two :
    (a b : ℕ) (s t : String)
    → HasValue a s
    → HasValue b t
    → read_clock (join_colon (s ∷ t ∷ [])) ≡ a * 60 + b
unfolding read_clock join_colon
read_clock-two a b s t ha hb =
    rw (clock_from-field 0 a s t ha, clock_from-last (0 * 60 + a) b t hb) (omega arith)

read_clock-three :
    (a b c : ℕ) (s t u : String)
    → HasValue a s
    → HasValue b t
    → HasValue c u
    → read_clock (join_colon (s ∷ t ∷ u ∷ [])) ≡ (a * 60 + b) * 60 + c
unfolding read_clock join_colon
read_clock-three a b c s t u ha hb hc =
    rw
      (
        clock_from-field 0 a s (t ⧺ (":" ⧺ u)) ha,
        clock_from-field (0 * 60 + a) b t u hb,
        clock_from-last ((0 * 60 + a) * 60 + b) c u hc,
      )
      (omega arith)

-- What a duration of whole seconds is shown as is read back as that duration: the fields, of which
-- the hours are left out where there are none, are sixty times sixty, sixty times and once the
-- fields' numbers, and their leading zeros count for nothing.
pub read_clock-format_duration : (seconds : ℕ) → read_clock (format_duration seconds) ≡ seconds
unfolding format_duration shown_parts
read_clock-format_duration seconds =
    let h = seconds / 3600 in
    let m = seconds % 3600 / 60 in
    let s = seconds % 60 in
    elim (Bool-cases (is_shown (number h))) [
      | inl k ↦
          rw
            (
              k,
              is_shown-minutes h m,
              is_shown-seconds s,
              read_clock-three h m s _ _ _ (show_nat-HasValue h) (minutes-HasValue h m)
                  (seconds-HasValue s),
            )
            (omega arith)
      | inr k ↦
          let none_left : h ≡ 0 = not_shown h k in
          rw
            (
              k,
              is_shown-minutes h m,
              is_shown-seconds s,
              read_clock-two m s _ _ (minutes-HasValue h m) (seconds-HasValue s),
            )
            (omega arith)
    ]
