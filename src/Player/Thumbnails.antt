-- ===== src/Player/Thumbnails.antt =====
-- sdk/js/packages/player/src/react/index.tsx, what useSignedThumbnailVtt makes of a track of
-- thumbnails, and what the component takes from its data and shows. What `new URL(path, base)` with
-- the parameters set gives as a text is given, or none where it throws.
pub mod Signed
pub mod TrackLines
use motionmesh.Base.{
  ℕ, Bool, true, false, not, ◌&&◌, ◌||◌, Option, none, some, List, [], ◌∷◌, ◌++◌, if◌then◌else◌,
  ◌==◌, codes, String,
}
use motionmesh.Js.Number.{is_space}
use motionmesh.Js.Value.{Value, undefined, str, get, or, is_truthy}
use motionmesh.Player.Urls.{begins}
use motionmesh.Player.Subtitles.{is_digit, is_line_end, matches}

-- `\d{2}:\d{2}:\d{2}`
abbrev pub clock : List (Option ℕ)
clock = none ∷ none ∷ some b':' ∷ none ∷ none ∷ some b':' ∷ none ∷ none ∷ []

-- `\s*$`
unfoldable pub is_blank : List ℕ → Bool
is_blank [] = true
is_blank (c ∷ s) = is_space c && is_blank s

-- The lines that the pattern leaves: `(?!WEBVTT|NOTE|\s*$|\d{2}:\d{2}:\d{2})`.
unfoldable pub is_kept : List ℕ → Bool
is_kept line =
    begins (codes "WEBVTT") line
    || begins (codes "NOTE") line
    || is_blank line
    || matches clock line

unfoldable pub drop_spaces : List ℕ → List ℕ
drop_spaces [] = []
drop_spaces (c ∷ s) = if is_space c then drop_spaces s else c ∷ s

abbrev pub cons_unless_blank : ℕ → List ℕ → List ℕ
cons_unless_blank c [] = if is_space c then [] else c ∷ []
cons_unless_blank c (d ∷ s) = c ∷ d ∷ s

unfoldable pub drop_last_spaces : List ℕ → List ℕ
drop_last_spaces [] = []
drop_last_spaces (c ∷ s) = cons_unless_blank c (drop_last_spaces s)

-- The two first parts of `line.split("#")`, the second of which may be missing.
unfoldable pub before_hash : List ℕ → List ℕ
before_hash [] = []
before_hash (c ∷ s) = let rest = before_hash s in if c == b'#' then [] else c ∷ rest

unfoldable pub after_hash : List ℕ → List ℕ
after_hash [] = []
after_hash (c ∷ s) = let rest = after_hash s in if c == b'#' then before_hash s else rest

abbrev pub with_fragment : List ℕ → List ℕ → List ℕ
with_fragment address [] = address
with_fragment address (c ∷ s) = address ++ (b'#' ∷ c ∷ s)

abbrev pub map_option : (List ℕ → List ℕ) → Option (List ℕ) → Option (List ℕ)
map_option f none = none
map_option f (some s) = some (f s)

abbrev pub append_option : Option (List ℕ) → Option (List ℕ) → Option (List ℕ)
append_option (some s) (some t) = some (s ++ t)
append_option _ _ = none

module _ (address : List ℕ → Option (List ℕ)) where
  -- What a line is replaced by.
  unfoldable pub sign_address : List ℕ → Option (List ℕ)
  sign_address line =
      let trimmed = drop_last_spaces (drop_spaces line) in
      map_option (λ a. with_fragment a (after_hash trimmed)) (address (before_hash trimmed))

  unfoldable pub sign_line : List ℕ → Option (List ℕ)
  sign_line line = let signed = sign_address line in if is_kept line then some line else signed

  -- `vtt.replace(…)`, from the part of a line that was read.
  unfoldable pub sign_from : List ℕ → List ℕ → Option (List ℕ)
  sign_from line [] = sign_line line
  sign_from line (c ∷ s) =
      let ended = append_option (sign_line line) (map_option (λ r. c ∷ r) (sign_from [] s)) in
      let more = sign_from (line ++ c ∷ []) s in if is_line_end c then ended else more

  unfoldable pub sign_track : List ℕ → Option (List ℕ)
  sign_track vtt = sign_from [] vtt

-- What the component takes from its data.
unfoldable pub video_src : Value → Value
video_src video_data = or (get "playlistUrl" video_data) (str "")

unfoldable pub subtitle_url : Value → Value
subtitle_url video_data = or (get "subtitleUrl" video_data) undefined

unfoldable pub preview_vtt_url : Value → Value
preview_vtt_url video_data = or (get "timelineSpritesUrl" video_data) (str "")

-- What it shows.
pub data Face : Type 0 where
  loading_face : Face
  error_face : Face
  player_face : Face

unfoldable pub face_of : Bool → Value → Face
face_of is_loading video_data =
    if is_loading && not (is_truthy video_data)
    then loading_face
    else if not (is_truthy video_data) && not is_loading
    then error_face
    else player_face
