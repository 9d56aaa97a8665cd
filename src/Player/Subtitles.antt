-- ===== src/Player/Subtitles.antt =====
-- sdk/js/packages/player/src/react/index.tsx, `srtToVtt`: subtitles in one format turned into the
-- other by three replacements, each one pass over the code points.
pub mod Lines
pub mod Stamps
use motionmesh.Base.{
  ℕ, zero, suc, ◌-◌, Bool, true, false, not, ◌&&◌, ◌||◌, Option, none, some, List, [], ◌∷◌, ◌++◌,
  if◌then◌else◌, ◌==◌, leb, ltb, codes, ◌≡◌, refl,
}

-- `.replace(/\r+/g, "")`
unfoldable pub remove_returns : List ℕ → List ℕ
remove_returns [] = []
remove_returns (c ∷ s) = let rest = remove_returns s in if c == 13 then rest else c ∷ rest

-- `\d`
abbrev pub is_digit : ℕ → Bool
is_digit c = leb b'0' c && leb c b'9'

-- After these a line begins.
abbrev pub is_line_end : ℕ → Bool
is_line_end c = c == 10 || c == 13 || c == 8232 || c == 8233

abbrev pub is_nil : List ℕ → Bool
is_nil [] = true
is_nil (c ∷ s) = false

-- Inside a line nothing is held back; from its beginning on, the digits are, while there is
-- nothing else.
abbrev pub emitted : Option (List ℕ) → ℕ → List ℕ
emitted none c = c ∷ []
emitted (some digits) c =
    if is_digit c then [] else if c == 10 && not (is_nil digits) then [] else digits ++ c ∷ []

abbrev pub after : Option (List ℕ) → ℕ → Option (List ℕ)
after none c = if is_line_end c then some [] else none
after (some digits) c =
    if is_digit c then some (digits ++ c ∷ []) else if is_line_end c then some [] else none

-- `.replace(/^\d+\n/gm, "")`
unfoldable pub remove_numbers : Option (List ℕ) → List ℕ → List ℕ
remove_numbers none [] = []
remove_numbers (some digits) [] = digits
remove_numbers held (c ∷ s) = emitted held c ++ remove_numbers (after held c) s

-- Whether a text begins with digits, one for each true, and other given characters.
abbrev pub matches : List (Option ℕ) → List ℕ → Bool
matches [] s = true
matches (p ∷ ps) [] = false
matches (none ∷ ps) (c ∷ s) = is_digit c && matches ps s
matches (some d ∷ ps) (c ∷ s) = c == d && matches ps s

-- `\d{2}:\d{2}:\d{2},\d{3}`
abbrev pub timestamp : List (Option ℕ)
timestamp =
    none
    ∷ none
    ∷ some b':'
    ∷ none
    ∷ none
    ∷ some b':'
    ∷ none
    ∷ none
    ∷ some b','
    ∷ none
    ∷ none
    ∷ none
    ∷ []

-- How many characters of a match are left, this one included.
abbrev pub left_of_match : ℕ → List ℕ → ℕ
left_of_match zero s = if matches timestamp s then 12 else 0
left_of_match (suc n) s = suc n

-- `.replace(/(\d{2}:\d{2}:\d{2}),(\d{3})/g, "$1.$2")`, with what is left of a match before it: the
-- comma is the ninth of its twelve characters.
unfoldable pub replace_commas : ℕ → List ℕ → List ℕ
replace_commas n [] = []
replace_commas n (c ∷ s) =
    let left = left_of_match n (c ∷ s) in
    (if left == 4 then b'.' else c) ∷ replace_commas (left - 1) s

-- `srtToVtt(srt)`
unfoldable pub srt_to_vtt : List ℕ → List ℕ
srt_to_vtt srt =
    codes "WEBVTT\n\n" ++ replace_commas 0 (remove_numbers (some []) (remove_returns srt))

srt_to_vtt_test :
    srt_to_vtt (codes "1\r\n00:00:01,500 --> 00:00:02,000\r\nOne, two\r\n")
    ≡ codes "WEBVTT\n\n00:00:01.500 --> 00:00:02.000\nOne, two\n"
unfolding srt_to_vtt remove_returns remove_numbers replace_commas
srt_to_vtt_test = refl
