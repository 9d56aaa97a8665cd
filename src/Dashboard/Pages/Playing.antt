-- ===== src/Dashboard/Pages/Playing.antt =====
-- Where the page of a video shows the player.
use package.text.Mathlib.TextEquality.{eq_iff}
use motionmesh.Base.{
  ◌≡◌, refl, ap, Bool, true, false, not, ◌&&◌, Option, none, some, String, List, [], ◌∷◌,
  if◌then◌else◌, Bool-cases, Option-cases, inl, inr,
}
use motionmesh.Js.Number.{Number}
use motionmesh.Js.Value.{Value, undefined, null, bool, num, str, arr, obj, get}
use motionmesh.Dashboard.Activity.{is_text}
use motionmesh.Dashboard.Pages.Video.{
  find_video, asks_playback, Panel, player, transcoding_failed, waiting, panel_of, details_of,
  VideoScreen, loading_video, no_video, details, video_screen,
}

-- Whether a screen has a player, and of which video.
abbrev pub player_of : Panel → Option Value
player_of (player id) = some id
player_of (transcoding_failed message) = none
player_of (waiting title text) = none

abbrev pub player_shown : VideoScreen → Option Value
player_shown loading_video = none
player_shown no_video = none
player_shown (details d) = player_of d.panel

panel_of-player :
    (v : Value)
    → player_of (panel_of v)
      ≡ (if is_text "ready" (get "status" v) then some (get "id" v) else none)
unfolding panel_of
panel_of-player v = elim (Bool-cases (is_text "ready" (get "status" v))) [
  | inl k ↦ rw k refl
  | inr k ↦ elim (Bool-cases (is_text "failed" (get "status" v))) [
    | inl l ↦ rw (k, l) refl
    | inr l ↦ elim (Bool-cases (is_text "processing" (get "status" v))) [
      | inl m ↦ rw (k, l, m) refl
      | inr m ↦ rw (k, l, m) refl
    ]
  ]
]

find_video-id :
    (id : String) (videos : List Value) (v : Value)
    → find_video id videos ≡ some v
    → is_text id (get "id" v) ≡ true
unfolding find_video
find_video-id id [] v e = absurd cc
find_video-id id (w ∷ videos) v e = elim (Bool-cases (is_text id (get "id" w))) [
  | inl k ↦ let same : some w ≡ some v = rw k at e in cc
  | inr k ↦ find_video-id id videos v (rw k at e)
]

is_text-str : (text : String) (v : Value) → is_text text v ≡ true → v ≡ str text
is_text-str text (str s) h = ap str ((eq_iff s text).0 h)
is_text-str text undefined h = absurd cc
is_text-str text null h = absurd cc
is_text-str text (bool b) h = absurd cc
is_text-str text (num n) h = absurd cc
is_text-str text (arr vs) h = absurd cc
is_text-str text (obj ms) h = absurd cc

-- The page of a video shows the player exactly when it has loaded and asks for the playback, that
-- is when the list of videos has one with the page's id whose status is ready, and the player
-- is then given the page's id.
pub player_shown-asks_playback :
    (format_bytes : Number → String) (is_loading : Bool) (id : String) (videos : List Value)
    → player_shown (video_screen format_bytes is_loading id videos)
      ≡ (if not is_loading && asks_playback (find_video id videos) then some (str id) else none)
unfolding video_screen asks_playback
player_shown-asks_playback format_bytes true id videos = refl
player_shown-asks_playback format_bytes false id videos =
    elim (Option-cases (find_video id videos)) [
      | inl e ↦ rw e refl
      | inr (v, e) ↦
          let same = is_text-str id (get "id" v) (find_video-id id videos v e) in
          rw e (unfold details_of in rw (panel_of-player v, same) refl)
    ]
