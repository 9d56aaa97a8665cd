-- ===== src/Player/Thumbnails/TrackLines.antt =====
-- The lines of a track of thumbnails, and what signing makes of each.
use mathlib.Core.List.{append-nil}
use motionmesh.Base.{
  ℕ, ◌≡◌, ◌≢◌, refl, ap, sym, Bool, true, false, ◌||◌, Option, none, some, List, [], ◌∷◌, ◌++◌,
  codes, ◌==◌, arith,
}
use motionmesh.Base.Lists.{All, All-append}
use motionmesh.Js.Number.{is_space}
use motionmesh.Player.Urls.{begins}
use motionmesh.Player.Subtitles.{matches}
use motionmesh.Player.Subtitles.Stamps.{IsDigit, is_digit-IsDigit}
use motionmesh.Player.Thumbnails.{
  clock, is_blank, is_kept, drop_spaces, cons_unless_blank, drop_last_spaces, before_hash,
  after_hash, with_fragment, map_option, sign_address, sign_line,
}

-- The lines of a track: its head, a note, a blank line, a time, and an image with the fragment that
-- says which part of it is meant, between spaces.
pub data TrackLine : Type 0 where
  head : List ℕ → TrackLine
  note : List ℕ → TrackLine
  blank : List ℕ → TrackLine
  time : ℕ → ℕ → ℕ → ℕ → ℕ → ℕ → List ℕ → TrackLine
  image : List ℕ → List ℕ → Option (List ℕ) → List ℕ → TrackLine

abbrev pub fragment_text : Option (List ℕ) → List ℕ
fragment_text none = []
fragment_text (some f) = b'#' ∷ f

abbrev pub text_of : TrackLine → List ℕ
text_of (head r) = codes "WEBVTT" ++ r
text_of (note r) = codes "NOTE" ++ r
text_of (blank spaces) = spaces
text_of (time h₁ h₂ m₁ m₂ s₁ s₂ r) = h₁ ∷ h₂ ∷ b':' ∷ m₁ ∷ m₂ ∷ b':' ∷ s₁ ∷ s₂ ∷ r
text_of (image before path fragment after) = before ++ ((path ++ fragment_text fragment) ++ after)

abbrev pub IsSpace : ℕ → Type 0
IsSpace c = is_space c ≡ true

abbrev pub IsPlain : ℕ → Type 0
IsPlain c = (is_space c ≡ false) × (c ≢ b'#')

abbrev pub IsFragment : Option (List ℕ) → Type 0
IsFragment none = Unit
IsFragment (some f) = (f ≢ []) × All IsPlain f

-- What the lines are made of: digits in a time, spaces around the path of an image, which has
-- neither spaces nor a `#`, and no image that begins like a line of another kind.
abbrev pub IsTrackLine : TrackLine → Type 0
IsTrackLine (head r) = Unit
IsTrackLine (note r) = Unit
IsTrackLine (blank spaces) = All IsSpace spaces
IsTrackLine (time h₁ h₂ m₁ m₂ s₁ s₂ r) = All IsDigit (h₁ ∷ h₂ ∷ m₁ ∷ m₂ ∷ s₁ ∷ s₂ ∷ [])
IsTrackLine (image before path fragment after) =
    let text = before ++ ((path ++ fragment_text fragment) ++ after) in
    All IsSpace before
    × All IsSpace after
    × (path ≢ [])
    × All IsPlain path
    × IsFragment fragment
    × (begins (codes "WEBVTT") text ≡ false)
    × (begins (codes "NOTE") text ≡ false)
    × (matches clock text ≡ false)

-- Only an image is replaced: by its signed address, and its fragment after that.
abbrev pub signed_line : (List ℕ → Option (List ℕ)) → TrackLine → Option (List ℕ)
signed_line address (image before path fragment after) =
    map_option (λ a. a ++ fragment_text fragment) (address path)
signed_line address l = some (text_of l)

kept :
    (line : List ℕ) (address : List ℕ → Option (List ℕ))
    → is_kept line ≡ true
    → sign_line address line ≡ some line
unfolding sign_line
kept line address k = rw k refl

is_blank-spaces : (s : List ℕ) → All IsSpace s → is_blank s ≡ true
unfolding is_blank
is_blank-spaces [] h = refl
is_blank-spaces (c ∷ s) (k, h) = rw (k, is_blank-spaces s h) refl

or-true : (a b c d : Bool) → (c ≡ true) → (a || b || c || d) ≡ true
or-true a b c d h = ground arith

or-last : (a b c d : Bool) → (d ≡ true) → (a || b || c || d) ≡ true
or-last a b c d h = ground arith

is_kept-blank : (line : List ℕ) → is_blank line ≡ true → is_kept line ≡ true
unfolding is_kept
is_kept-blank line h =
    or-true (begins (codes "WEBVTT") line) (begins (codes "NOTE") line) (is_blank line)
      (matches clock line) h

is_kept-time : (line : List ℕ) → matches clock line ≡ true → is_kept line ≡ true
unfolding is_kept
is_kept-time line h =
    or-last (begins (codes "WEBVTT") line) (begins (codes "NOTE") line) (is_blank line)
      (matches clock line) h

or-none :
    (a b c d : Bool) → a ≡ false → b ≡ false → c ≡ false → d ≡ false → (a || b || c || d) ≡ false
or-none a b c d p q r s = ground arith

is_blank-plain :
    (before s : List ℕ) (c : ℕ) → is_space c ≡ false → is_blank (before ++ (c ∷ s)) ≡ false
unfolding is_blank
is_blank-plain [] s c p = rw p refl
is_blank-plain (b ∷ before) s c p = rw (is_blank-plain before s c p) (ground arith)

drop_spaces-before :
    (before s : List ℕ) (c : ℕ)
    → All IsSpace before
    → is_space c ≡ false
    → drop_spaces (before ++ (c ∷ s)) ≡ c ∷ s
unfolding drop_spaces
drop_spaces-before [] s c h p = rw p refl
drop_spaces-before (b ∷ before) s c (k, h) p = rw k (drop_spaces-before before s c h p)

drop_last_spaces-blank : (s : List ℕ) → All IsSpace s → drop_last_spaces s ≡ []
unfolding drop_last_spaces
drop_last_spaces-blank [] h = refl
drop_last_spaces-blank (c ∷ s) (k, h) = rw (drop_last_spaces-blank s h) (rw k refl)

cons-plain : (c : ℕ) (s : List ℕ) → is_space c ≡ false → cons_unless_blank c s ≡ c ∷ s
cons-plain c [] p = rw p refl
cons-plain c (d ∷ s) p = refl

abbrev IsInk : ℕ → Type 0
IsInk c = is_space c ≡ false

drop_last_spaces-after :
    (s after : List ℕ) → All IsInk s → All IsSpace after → drop_last_spaces (s ++ after) ≡ s
unfolding drop_last_spaces
drop_last_spaces-after [] after h k = drop_last_spaces-blank after k
drop_last_spaces-after (c ∷ s) after (p, h) k =
    rw (drop_last_spaces-after s after h k) (cons-plain c s p)

All-IsInk : (s : List ℕ) → All IsPlain s → All IsInk s
All-IsInk [] h = tt
All-IsInk (c ∷ s) ((p, _), h) = (p, All-IsInk s h)

before_hash-plain : (s : List ℕ) → All IsPlain s → before_hash s ≡ s
unfolding before_hash
before_hash-plain [] h = refl
before_hash-plain (c ∷ s) ((_, n), h) =
    let other : (c == b'#') ≡ false = ground arith in rw (before_hash-plain s h, other) refl

before_hash-fragment : (s f : List ℕ) → All IsPlain s → before_hash (s ++ (b'#' ∷ f)) ≡ s
unfolding before_hash
before_hash-fragment [] f h = refl
before_hash-fragment (c ∷ s) f ((_, n), h) =
    let other : (c == b'#') ≡ false = ground arith in rw (before_hash-fragment s f h, other) refl

after_hash-plain : (s : List ℕ) → All IsPlain s → after_hash s ≡ []
unfolding after_hash
after_hash-plain [] h = refl
after_hash-plain (c ∷ s) ((_, n), h) =
    let other : (c == b'#') ≡ false = ground arith in rw (after_hash-plain s h, other) refl

after_hash-fragment :
    (s f : List ℕ) → All IsPlain s → All IsPlain f → after_hash (s ++ (b'#' ∷ f)) ≡ f
unfolding after_hash
after_hash-fragment [] f h k = before_hash-plain f k
after_hash-fragment (c ∷ s) f ((_, n), h) k =
    let other : (c == b'#') ≡ false = ground arith in rw (after_hash-fragment s f h k, other) refl

with_fragment-full : (a f : List ℕ) → f ≢ [] → with_fragment a f ≡ a ++ (b'#' ∷ f)
with_fragment-full a [] n = absurd (n refl)
with_fragment-full a (c ∷ f) n = refl

-- A trimmed image, split at its `#`.
sign_trimmed :
    (address : List ℕ → Option (List ℕ)) (path : List ℕ) (fragment : Option (List ℕ))
    → All IsPlain path
    → IsFragment fragment
    → map_option
        (λ a. with_fragment a (after_hash (path ++ fragment_text fragment)))
        (address (before_hash (path ++ fragment_text fragment)))
      ≡ map_option (λ a. a ++ fragment_text fragment) (address path)
sign_trimmed address path none h f =
    rw (append-nil path, before_hash-plain path h, after_hash-plain path h) (ends (address path))
  where
    ends : (o : Option (List ℕ)) → map_option (λ a. a) o ≡ map_option (λ a. a ++ []) o
    ends none = refl
    ends (some a) = ap some (sym (append-nil a))
sign_trimmed address path (some f) h (n, k) =
    rw (before_hash-fragment path f h, after_hash-fragment path f h k) (ends (address path))
  where
    ends :
        (o : Option (List ℕ))
        → map_option (λ a. with_fragment a f) o ≡ map_option (λ a. a ++ (b'#' ∷ f)) o
    ends none = refl
    ends (some a) = ap some (with_fragment-full a f n)

fragment-IsInk : (o : Option (List ℕ)) → IsFragment o → All IsInk (fragment_text o)
fragment-IsInk none f = tt
fragment-IsInk (some f) (n, h) = (refl, All-IsInk f h)

sign_image :
    (address : List ℕ → Option (List ℕ)) (before path : List ℕ) (fragment : Option (List ℕ))
    (after : List ℕ)
    → IsTrackLine (image before path fragment after)
    → sign_line address (text_of (image before path fragment after))
      ≡ map_option (λ a. a ++ fragment_text fragment) (address path)
sign_image address before [] fragment after (b, a, n, _, _, _, _, _) = absurd (n refl)
sign_image address before (c ∷ path) fragment after (b, a, n, (p, h), f, w, o, m) =
    let s = (path ++ fragment_text fragment) ++ after in
    let shown : is_kept (before ++ (c ∷ s)) ≡ false =
      unfold is_kept in or-none _ _ _ _ w o (is_blank-plain before s c p.0) m in
    let ink =
      All-append IsInk (c ∷ path) (fragment_text fragment) (p.0, All-IsInk path h)
        (fragment-IsInk fragment f) in
    unfold sign_line sign_address in
    rw
      (
        shown,
        drop_spaces-before before s c b p.0,
        drop_last_spaces-after ((c ∷ path) ++ fragment_text fragment) after ink a,
      )
      (sign_trimmed address (c ∷ path) fragment (p, h) f)

pub sign_line-signed_line :
    (address : List ℕ → Option (List ℕ)) (l : TrackLine)
    → IsTrackLine l
    → sign_line address (text_of l) ≡ signed_line address l
sign_line-signed_line address (head r) h =
    kept (text_of (head r)) address (unfold is_kept begins in refl)
sign_line-signed_line address (note r) h =
    kept (text_of (note r)) address (unfold is_kept begins in refl)
sign_line-signed_line address (blank s) h = kept s address (is_kept-blank s (is_blank-spaces s h))
sign_line-signed_line address (time h₁ h₂ m₁ m₂ s₁ s₂ r) (a, (b, (c, (d, (e, (f, _)))))) =
    let digits : matches clock (text_of (time h₁ h₂ m₁ m₂ s₁ s₂ r)) ≡ true =
      rw
        (
          is_digit-IsDigit h₁ a,
          is_digit-IsDigit h₂ b,
          is_digit-IsDigit m₁ c,
          is_digit-IsDigit m₂ d,
          is_digit-IsDigit s₁ e,
          is_digit-IsDigit s₂ f,
        )
        refl in
    kept (text_of (time h₁ h₂ m₁ m₂ s₁ s₂ r)) address (is_kept-time _ digits)
sign_line-signed_line address (image before path fragment after) h =
    sign_image address before path fragment after h
