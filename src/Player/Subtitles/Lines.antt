-- ===== src/Player/Subtitles/Lines.antt =====
-- Which lines of subtitles are left out.
use motionmesh.Base.{
  ℕ, ◌≡◌, refl, ap, sym, ◌∙◌, Bool, true, false, not, ◌&&◌, none, some, List, [], ◌∷◌, ◌++◌, arith,
  if◌then◌else◌, ◌==◌, codes, Bool-cases, inl, inr,
}
use motionmesh.Base.Lists.{All}
use mathlib.Core.List.{append_assoc}
use motionmesh.Player.Subtitles.Stamps.{Dotted, Dotted-replace_commas}
use motionmesh.Player.Subtitles.{
  remove_returns, is_digit, is_line_end, is_nil, remove_numbers, replace_commas, srt_to_vtt,
}

abbrev pub IsInLine : ℕ → Type 0
IsInLine c = is_line_end c ≡ false

abbrev pub IsLine : List ℕ → Type 0
IsLine l = All IsInLine l

-- Lines, each with its end.
abbrev pub join : List (List ℕ) → List ℕ
join [] = []
join (l ∷ ls) = l ++ (10 ∷ join ls)

-- The same with the end that each line has: true stands for a return before the line feed.
abbrev pub join_ends : List (Bool × List ℕ) → List ℕ
join_ends [] = []
join_ends ((true, l) ∷ ls) = l ++ (13 ∷ 10 ∷ join_ends ls)
join_ends ((false, l) ∷ ls) = l ++ (10 ∷ join_ends ls)

abbrev pub texts_of : List (Bool × List ℕ) → List (List ℕ)
texts_of [] = []
texts_of ((b, l) ∷ ls) = l ∷ texts_of ls

abbrev pub all_digits : List ℕ → Bool
all_digits [] = true
all_digits (c ∷ s) = is_digit c && all_digits s

-- The lines that are not one number.
abbrev pub without_numbers : List (List ℕ) → List (List ℕ)
without_numbers [] = []
without_numbers (l ∷ ls) =
    let rest = without_numbers ls in if all_digits l && not (is_nil l) then rest else l ∷ rest

remove_returns-line : (l s : List ℕ) → IsLine l → remove_returns (l ++ s) ≡ l ++ remove_returns s
unfolding remove_returns
remove_returns-line [] s h = refl
remove_returns-line (c ∷ l) s (n, h) = let rest = remove_returns-line l s h in ground arith

remove_returns-join_ends :
    (ls : List (Bool × List ℕ))
    → All IsLine (texts_of ls)
    → remove_returns (join_ends ls) ≡ join (texts_of ls)
unfolding remove_returns
remove_returns-join_ends [] h = refl
remove_returns-join_ends ((true, l) ∷ ls) (n, h) =
    remove_returns-line l (13 ∷ 10 ∷ join_ends ls) n
    ∙ ap (λ s. l ++ (10 ∷ s)) (remove_returns-join_ends ls h)
remove_returns-join_ends ((false, l) ∷ ls) (n, h) =
    remove_returns-line l (10 ∷ join_ends ls) n
    ∙ ap (λ s. l ++ (10 ∷ s)) (remove_returns-join_ends ls h)

remove_numbers-in_line :
    (l s : List ℕ)
    → IsLine l
    → remove_numbers none (l ++ (10 ∷ s)) ≡ l ++ (10 ∷ remove_numbers (some []) s)
unfolding remove_numbers
remove_numbers-in_line [] s h = refl
remove_numbers-in_line (c ∷ l) s (n, h) = rw n (ap (λ r. c ∷ r) (remove_numbers-in_line l s h))

abbrev kept_line : List ℕ → List ℕ → List ℕ
kept_line digits l =
    if all_digits l && not (is_nil (digits ++ l)) then [] else digits ++ (l ++ (10 ∷ []))

kept_line-cons :
    (digits l : List ℕ) (c : ℕ)
    → is_digit c ≡ true
    → kept_line (digits ++ (c ∷ [])) l ≡ kept_line digits (c ∷ l)
kept_line-cons digits l c d =
    rw (append_assoc digits (c ∷ []) l, append_assoc digits (c ∷ []) (l ++ (10 ∷ [])), d) refl

line_kept :
    (digits l s : List ℕ) (c : ℕ)
    → (digits ++ (c ∷ [])) ++ (l ++ (10 ∷ s)) ≡ (digits ++ (c ∷ (l ++ (10 ∷ [])))) ++ s
line_kept digits l s c =
    append_assoc digits (c ∷ []) (l ++ (10 ∷ s))
    ∙ ap (λ r. digits ++ (c ∷ r)) (sym (append_assoc l (10 ∷ []) s))
    ∙ sym (append_assoc digits (c ∷ (l ++ (10 ∷ []))) s)

remove_numbers-nil :
    (digits s : List ℕ)
    → remove_numbers (some digits) (10 ∷ s) ≡ kept_line digits [] ++ remove_numbers (some []) s
unfolding remove_numbers
remove_numbers-nil [] s = refl
remove_numbers-nil (d ∷ digits) s = refl

remove_numbers-digit :
    (digits s : List ℕ) (c : ℕ)
    → is_digit c ≡ true
    → remove_numbers (some digits) (c ∷ s) ≡ remove_numbers (some (digits ++ (c ∷ []))) s
unfolding remove_numbers
remove_numbers-digit digits s c d = rw d refl

remove_numbers-other :
    (digits s : List ℕ) (c : ℕ)
    → is_digit c ≡ false
    → IsInLine c
    → remove_numbers (some digits) (c ∷ s) ≡ (digits ++ (c ∷ [])) ++ remove_numbers none s
unfolding remove_numbers
remove_numbers-other digits s c d n =
    let differs : (c == 10) ≡ false = ground arith in rw (d, n, differs) refl

remove_numbers-line :
    (digits l s : List ℕ)
    → IsLine l
    → remove_numbers (some digits) (l ++ (10 ∷ s))
      ≡ kept_line digits l ++ remove_numbers (some []) s
remove_numbers-line digits [] s h = remove_numbers-nil digits s
remove_numbers-line digits (c ∷ l) s (n, h) = elim (Bool-cases (is_digit c)) [
  | inl d ↦
      remove_numbers-digit digits (l ++ (10 ∷ s)) c d
      ∙ remove_numbers-line (digits ++ (c ∷ [])) l s h
      ∙ ap (λ k. k ++ remove_numbers (some []) s) (kept_line-cons digits l c d)
  | inr d ↦
      remove_numbers-other digits (l ++ (10 ∷ s)) c d n
      ∙ ap (λ r. (digits ++ (c ∷ [])) ++ r) (remove_numbers-in_line l s h)
      ∙ line_kept digits l (remove_numbers (some []) s) c
      ∙ rw d refl
]

kept_line-join :
    (l : List ℕ) (rest : List (List ℕ))
    → kept_line [] l ++ join rest ≡ join (if all_digits l && not (is_nil l) then rest else l ∷ rest)
kept_line-join l rest = elim (Bool-cases (all_digits l && not (is_nil l))) [
  | inl k ↦ rw k refl
  | inr k ↦ rw k (append_assoc l (10 ∷ []) (join rest))
]

remove_numbers-join :
    (ls : List (List ℕ))
    → All IsLine ls
    → remove_numbers (some []) (join ls) ≡ join (without_numbers ls)
remove_numbers-join [] h = unfold remove_numbers in refl
remove_numbers-join (l ∷ ls) (n, h) =
    remove_numbers-line [] l (join ls) n
    ∙ ap (λ r. kept_line [] l ++ r) (remove_numbers-join ls h)
    ∙ kept_line-join l (without_numbers ls)

-- Subtitles whose lines end in either style, also mixed, become a header and the lines that are
-- not one number, with a dot for the comma of each time that is read from the left, and nothing
-- else changed: the number of each subtitle is left out, and so is every line of text that is a
-- number.
pub srt_to_vtt-lines :
    (ls : List (Bool × List ℕ))
    → All IsLine (texts_of ls)
    → (body : List ℕ) × (srt_to_vtt (join_ends ls) ≡ codes "WEBVTT\n\n" ++ body)
      × Dotted (join (without_numbers (texts_of ls))) body
unfolding srt_to_vtt
srt_to_vtt-lines ls h =
    let kept = join (without_numbers (texts_of ls)) in
    (
      replace_commas 0 kept,
      ap (λ s. codes "WEBVTT\n\n" ++ replace_commas 0 (remove_numbers (some []) s))
            (remove_returns-join_ends ls h)
          ∙ ap (λ s. codes "WEBVTT\n\n" ++ replace_commas 0 s)
              (remove_numbers-join (texts_of ls) h),
      Dotted-replace_commas kept,
    )
