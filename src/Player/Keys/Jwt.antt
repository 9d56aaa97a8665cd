-- ===== src/Player/Keys/Jwt.antt =====
-- The scan for a token accepts exactly three segments that are joined by dots.
use motionmesh.Base.{
  ℕ, zero, suc, ◌≡◌, ◌≢◌, ◌⊎◌, ◌↔◌, inl, inr, refl, sym, ap, ◌∙◌, Bool, true, false, String, List,
  [], ◌∷◌, ◌++◌, arith, codes, Bool-cases,
}
use motionmesh.Base.Lists.{All}
use motionmesh.Player.Keys.{is_segment_char, match_segments, is_probably_jwt}

abbrev pub IsSegmentChar : ℕ → Type 0
IsSegmentChar c = is_segment_char c ≡ true

-- `dots + 1` segments, joined by dots, none empty but the first where it has `begun` before.
abbrev pub Segments : ℕ → Bool → List ℕ → Type 0
Segments zero begun s = All IsSegmentChar s × ((begun ≡ true) ⊎ (s ≢ []))
Segments (suc dots) begun s =
    (a : List ℕ) × (rest : List ℕ) × (s ≡ a ++ (b'.' ∷ rest))
    × All IsSegmentChar a
    × ((begun ≡ true) ⊎ (a ≢ []))
    × Segments dots false rest

cons-ne-nil : (c : ℕ) (s : List ℕ) → c ∷ s ≢ []
cons-ne-nil c s e = cc

match_segments-char :
    (dots : ℕ) (begun : Bool) (c : ℕ) (s : List ℕ)
    → IsSegmentChar c
    → match_segments dots begun (c ∷ s) ≡ match_segments dots true s
unfolding match_segments
match_segments-char zero begun c s e = rw e
match_segments-char (suc dots) begun c s e = rw e

match_segments-dot :
    (dots : ℕ) (s : List ℕ)
    → match_segments (suc dots) true (b'.' ∷ s) ≡ match_segments dots false s
unfolding match_segments
match_segments-dot dots s = refl

match_segments-other :
    (dots : ℕ) (begun : Bool) (c : ℕ) (s : List ℕ)
    → is_segment_char c ≡ false
    → match_segments (suc dots) begun (c ∷ s) ≡ true
    → (c ≡ b'.') × (begun ≡ true) × (match_segments dots false s ≡ true)
unfolding match_segments
match_segments-other dots begun c s e h = ground arith

match_segments_sound :
    (dots : ℕ) (begun : Bool) (s : List ℕ)
    → match_segments dots begun s ≡ true
    → Segments dots begun s
unfolding match_segments
match_segments_sound zero begun [] h = (tt, inl h)
match_segments_sound (suc dots) begun [] h = cc
match_segments_sound zero begun (c ∷ s) h = elim (Bool-cases (is_segment_char c)) [
  | inl seg ↦
      let rest = sym (match_segments-char zero begun c s seg) ∙ h in
      ((seg, (match_segments_sound zero true s rest).0), inr (cons-ne-nil c s))
  | inr other ↦ cc (rw other at h)
]
match_segments_sound (suc dots) begun (c ∷ s) h = elim (Bool-cases (is_segment_char c)) [
  | inl seg ↦
      let rest = sym (match_segments-char (suc dots) begun c s seg) ∙ h in
      let (a, after, e, segs, _, more) = match_segments_sound (suc dots) true s rest in
      (c ∷ a, after, ap (λ l. c ∷ l) e, (seg, segs), inr (cons-ne-nil c a), more)
  | inr other ↦
      let (dot, started, rest) = match_segments-other dots begun c s other h in
      ([], s, ap (λ k. k ∷ s) dot, tt, inl started, match_segments_sound dots false s rest)
]

match_segments_complete :
    (dots : ℕ) (begun : Bool) (s : List ℕ)
    → Segments dots begun s
    → match_segments dots begun s ≡ true
match_segments_complete zero begun [] (segs, inl started) = unfold match_segments in started
match_segments_complete zero begun [] (segs, inr some_char) = absurd (some_char refl)
match_segments_complete zero begun (c ∷ s) ((seg, segs), begins) =
    match_segments-char zero begun c s seg ∙ match_segments_complete zero true s (segs, inl refl)
match_segments_complete (suc dots) begun s ([], rest, e, segs, inl started, more) =
    ap (match_segments (suc dots) begun) e
    ∙ rw started (match_segments-dot dots rest)
    ∙ match_segments_complete dots false rest more
match_segments_complete (suc dots) begun s ([], rest, e, segs, inr some_char, more) =
    absurd (some_char refl)
match_segments_complete (suc dots) begun s (c ∷ a, rest, e, (seg, segs), begins, more) =
    ap (match_segments (suc dots) begun) e
    ∙ match_segments-char (suc dots) begun c (a ++ (b'.' ∷ rest)) seg
    ∙ match_segments_complete (suc dots) true (a ++ (b'.' ∷ rest))
        (a, rest, refl, segs, inl refl, more)

-- A text passes for a token exactly when it is three segments joined by dots, each of at least
-- one letter, digit, dash or underscore.
pub is_probably_jwt_iff :
    (token : String) → (is_probably_jwt token ≡ true) ↔ Segments 2 false (codes token)
unfolding is_probably_jwt
is_probably_jwt_iff String.[] = (λ h. cc, λ h. match_segments_complete 2 false [] h)
is_probably_jwt_iff (String.◌∷◌ c s) = (
  λ h. match_segments_sound 2 false (codes (String.◌∷◌ c s)) h,
  λ h. match_segments_complete 2 false (codes (String.◌∷◌ c s)) h,
)
