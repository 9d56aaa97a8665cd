-- ===== src/Player/Subtitles/Stamps.antt =====
-- What the last replacement of `srtToVtt` makes of a text: `(\d{2}:\d{2}:\d{2}),(\d{3})` with the
-- flag `g` replaces the matches that are found from the left on, which do not overlap.
use motionmesh.Base.{
  ℕ, ◌≡◌, ◌≢◌, refl, ap, sym, ◌∙◌, Bool, true, false, ◌&&◌, Option, none, some, List, [], ◌∷◌,
  arith, ◌==◌, Bool-cases, inl, inr, ◌≤◌, length, zero, suc,
}
use motionmesh.Player.Subtitles.{is_digit, matches, timestamp, left_of_match, replace_commas}

-- The nine digits of a time and its thousandths.
pub record Stamp : Type 0 where
  pub h₁ : ℕ
  pub h₂ : ℕ
  pub m₁ : ℕ
  pub m₂ : ℕ
  pub s₁ : ℕ
  pub s₂ : ℕ
  pub f₁ : ℕ
  pub f₂ : ℕ
  pub f₃ : ℕ

abbrev pub IsDigit : ℕ → Type 0
IsDigit c = (b'0' ≤ c) × (c ≤ b'9')

abbrev pub HasDigits : Stamp → Type 0
HasDigits t =
    IsDigit t.h₁
    × IsDigit t.h₂
    × IsDigit t.m₁
    × IsDigit t.m₂
    × IsDigit t.s₁
    × IsDigit t.s₂
    × IsDigit t.f₁
    × IsDigit t.f₂
    × IsDigit t.f₃

-- The text of a time, with a given mark before the thousandths, and what follows it.
abbrev pub written : Stamp → ℕ → List ℕ → List ℕ
written t mark rest =
    t.h₁ ∷ t.h₂ ∷ b':' ∷ t.m₁ ∷ t.m₂ ∷ b':' ∷ t.s₁ ∷ t.s₂ ∷ mark ∷ t.f₁ ∷ t.f₂ ∷ t.f₃ ∷ rest

-- `t` is `s` with a dot for the comma of each time, read from the left: a time is replaced as a
-- whole, and a character where no time begins stays.
pub data Dotted : List ℕ → List ℕ → Type 0 where
  done : Dotted [] []
  stamp :
      {s t : List ℕ} (x : Stamp)
      → HasDigits x
      → Dotted s t
      → Dotted (written x b',' s) (written x b'.' t)
  other :
      {s t : List ℕ} (c : ℕ)
      → ((x : Stamp) (rest : List ℕ) → HasDigits x → c ∷ s ≢ written x b',' rest)
      → Dotted s t
      → Dotted (c ∷ s) (c ∷ t)

pub is_digit-IsDigit : (c : ℕ) → IsDigit c → is_digit c ≡ true
is_digit-IsDigit c (l, u) = ground arith

module _ (x : Stamp) (d : HasDigits x) where
  matches-written : (rest : List ℕ) → matches timestamp (written x b',' rest) ≡ true
  matches-written rest =
      let (a, b, c, e, f, g, i, j, k) = d in
      rw
        (
          is_digit-IsDigit x.h₁ a,
          is_digit-IsDigit x.h₂ b,
          is_digit-IsDigit x.m₁ c,
          is_digit-IsDigit x.m₂ e,
          is_digit-IsDigit x.s₁ f,
          is_digit-IsDigit x.s₂ g,
          is_digit-IsDigit x.f₁ i,
          is_digit-IsDigit x.f₂ j,
          is_digit-IsDigit x.f₃ k,
        )
        refl

  left_of_match-written : (rest : List ℕ) → left_of_match 0 (written x b',' rest) ≡ 12
  left_of_match-written rest = rw (matches-written rest) refl

  replace_commas-stamp :
      (s : List ℕ) → replace_commas 0 (written x b',' s) ≡ written x b'.' (replace_commas 0 s)
  unfolding replace_commas
  replace_commas-stamp s = rw (matches-written s) refl

-- Where no time begins, the character stays.
replace_commas-other :
    (c : ℕ) (s : List ℕ)
    → matches timestamp (c ∷ s) ≡ false
    → replace_commas 0 (c ∷ s) ≡ c ∷ replace_commas 0 s
unfolding replace_commas
replace_commas-other c s h = rw h refl

abbrev Fits : List (Option ℕ) → List ℕ → Type 0
Fits [] s = Unit
Fits (none ∷ ps) s = (c : ℕ) × (r : List ℕ) × (s ≡ c ∷ r) × IsDigit c × Fits ps r
Fits (some d ∷ ps) s = (r : List ℕ) × (s ≡ d ∷ r) × Fits ps r

and-true : (a b : Bool) → (a && b) ≡ true → (a ≡ true) × (b ≡ true)
and-true true true h = (refl, refl)
and-true true false h = absurd cc
and-true false b h = absurd cc

matches-Fits : (ps : List (Option ℕ)) (s : List ℕ) → matches ps s ≡ true → Fits ps s
matches-Fits [] s h = tt
matches-Fits (none ∷ ps) [] h = absurd cc
matches-Fits (some d ∷ ps) [] h = absurd cc
matches-Fits (none ∷ ps) (c ∷ s) h =
    let (d, m) = and-true (is_digit c) (matches ps s) h in
    (c, s, refl, ground arith, matches-Fits ps s m)
matches-Fits (some d ∷ ps) (c ∷ s) h =
    let (e, m) = and-true (c == d) (matches ps s) h in
    let same : c ≡ d = ground arith in (s, rw same refl, matches-Fits ps s m)

-- A text that the pattern matches begins with a time.
split_stamp :
    (s : List ℕ)
    → matches timestamp s ≡ true
    → (x : Stamp) × (rest : List ℕ) × HasDigits x × (s ≡ written x b',' rest)
split_stamp s h =
    let (h₁, r₁, e₁, d₁, n₁) = matches-Fits timestamp s h in
    let (h₂, r₂, e₂, d₂, n₂) = n₁ in
    let (r₃, e₃, n₃) = n₂ in
    let (m₁, r₄, e₄, d₄, n₄) = n₃ in
    let (m₂, r₅, e₅, d₅, n₅) = n₄ in
    let (r₆, e₆, n₆) = n₅ in
    let (s₁, r₇, e₇, d₇, n₇) = n₆ in
    let (s₂, r₈, e₈, d₈, n₈) = n₇ in
    let (r₉, e₉, n₉) = n₈ in
    let (f₁, t₁, k₁, g₁, w₁) = n₉ in
    let (f₂, t₂, k₂, g₂, w₂) = w₁ in
    let (f₃, t₃, k₃, g₃, w₃) = w₂ in
    (
      record { h₁ = h₁; h₂ = h₂; m₁ = m₁; m₂ = m₂; s₁ = s₁; s₂ = s₂; f₁ = f₁; f₂ = f₂; f₃ = f₃ },
      t₃,
      (d₁, d₂, d₄, d₅, d₇, d₈, g₁, g₂, g₃),
      rw (e₁, e₂, e₃, e₄, e₅, e₆, e₇, e₈, e₉, k₁, k₂, k₃) refl,
    )

false-true : {P : Type 0} → false ≡ true → P
false-true h = absurd cc

-- The replacement puts a dot for the comma of each time, and changes nothing else.
Dotted-replace_commas-upto : (n : ℕ) (s : List ℕ) → length s ≤ n → Dotted s (replace_commas 0 s)
Dotted-replace_commas-upto n [] l = unfold replace_commas in done
Dotted-replace_commas-upto zero (c ∷ s) l = absurd (omega arith)
Dotted-replace_commas-upto (suc n) (c ∷ s) l = elim (Bool-cases (matches timestamp (c ∷ s))) [
  | inl m ↦
      let (x, rest, d, e) = split_stamp (c ∷ s) m in
      let short : length rest ≤ n = omega (arith, ap length e) in
      rw (e, replace_commas-stamp x d rest) (stamp x d (Dotted-replace_commas-upto n rest short))
  | inr m ↦
      let no : (x : Stamp) (rest : List ℕ) → HasDigits x → c ∷ s ≢ written x b',' rest =
        λ x rest d e. false-true (sym m ∙ ap (matches timestamp) e ∙ matches-written x d rest) in
      rw (replace_commas-other c s m) (other c no (Dotted-replace_commas-upto n s (omega arith)))
]

pub Dotted-replace_commas : (s : List ℕ) → Dotted s (replace_commas 0 s)
Dotted-replace_commas s = Dotted-replace_commas-upto (length s) s (omega arith)
