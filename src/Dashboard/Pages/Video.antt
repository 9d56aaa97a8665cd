-- ===== src/Dashboard/Pages/Video.antt =====
-- client/dashboard/src/app/dashboard/videos/[id]/page.tsx: the video of the page, what the page
-- shows of it, and whether it asks for the playback. Dates are left to the browser.
use motionmesh.Base.{Bool, false, Option, none, some, String, List, [], ◌∷◌, if◌then◌else◌}
use motionmesh.Js.Number.{Number}
use motionmesh.Js.Value.{Value, num, arr, get, is_truthy, elements}
use motionmesh.Js.Number.{is_truthy_number}
use motionmesh.Dashboard.Activity.{is_text}
use motionmesh.Dashboard.Figures.{status_label, duration_column}

-- `serverVideos?.find((v) => v.id === params.id)`
unfoldable pub find_video : String → List Value → Option Value
find_video id [] = none
find_video id (v ∷ vs) =
    let rest = find_video id vs in if is_text id (get "id" v) then some v else rest

-- `enabled: video?.status === "ready"`
unfoldable pub asks_playback : Option Value → Bool
asks_playback none = false
asks_playback (some v) = is_text "ready" (get "status" v)

-- What stands in the place of the player.
pub data Panel : Type 0 where
  player : Value → Panel
  transcoding_failed : Value → Panel
  waiting : String → String → Panel

unfoldable pub panel_of : Value → Panel
panel_of v =
    if is_text "ready" (get "status" v)
    then player (get "id" v)
    else if is_text "failed" (get "status" v)
    then transcoding_failed (get "error_message" v)
    else if is_text "processing" (get "status" v)
    then waiting "Processing Video…" "Generating HLS renditions. This may take a few minutes."
    else waiting "Queued for Transcoding" "Waiting for a transcode worker to become available."

abbrev pub given : Value → Option Value
given v = if is_truthy v then some v else none

-- `size ? formatBytes(size) : "-"`
abbrev pub size_text : (Number → String) → Value → String
size_text format_bytes (num n) = if is_truthy_number n then format_bytes n else "-"
size_text format_bytes _ = "-"

-- A line of the table of renditions, and of the table of captions.
pub record Rendition : Type 0 where
  pub res : Value
  pub bitrate : Value
  pub format : Value
  pub size : String

pub record Caption : Type 0 where
  pub lang : Value
  pub status : Value
  pub size : String

unfoldable pub renditions_of : (Number → String) → List Value → List Rendition
renditions_of format_bytes [] = []
renditions_of format_bytes (r ∷ rs) =
    (record {
      res = get "res" r;
      bitrate = get "bitrate" r;
      format = get "format" r;
      size = size_text format_bytes (get "size_bytes" r);
    })
    ∷ renditions_of format_bytes rs

unfoldable pub captions_of : (Number → String) → List Value → List Caption
captions_of format_bytes [] = []
captions_of format_bytes (c ∷ cs) =
    (record {
      lang = get "lang" c;
      status = get "status" c;
      size = size_text format_bytes (get "size_bytes" c);
    })
    ∷ captions_of format_bytes cs

-- A table is there where the video has the list.
abbrev pub list_of : Value → Option (List Value)
list_of (arr vs) = some (elements vs)
list_of _ = none

abbrev pub rendition_table : (Number → String) → Option (List Value) → Option (List Rendition)
rendition_table format_bytes none = none
rendition_table format_bytes (some rs) = some (renditions_of format_bytes rs)

abbrev pub caption_table : (Number → String) → Option (List Value) → Option (List Caption)
caption_table format_bytes none = none
caption_table format_bytes (some cs) = some (captions_of format_bytes cs)

pub record Details : Type 0 where
  pub title : Value
  pub badge : Value
  pub captions_status : Option Value
  pub bucket : Option Value
  pub transcode_bucket : Option Value
  pub panel : Panel
  pub renditions : Option (List Rendition)
  pub captions : Option (List Caption)
  pub duration : String
  pub size : String
  pub id : Value

unfoldable pub details_of : (Number → String) → Value → Details
details_of format_bytes v = record {
  title = get "title" v;
  badge = status_label (get "status" v);
  captions_status = given (get "captions_status" v);
  bucket = given (get "bucket_id" v);
  transcode_bucket = given (get "transcode_bucket_id" v);
  panel = panel_of v;
  renditions = rendition_table format_bytes (list_of (get "renditions" v));
  captions = caption_table format_bytes (list_of (get "captions" v));
  duration = duration_column (get "duration" v);
  size = size_text format_bytes (get "size_bytes" v);
  id = get "id" v;
}

pub data VideoScreen : Type 0 where
  loading_video : VideoScreen
  no_video : VideoScreen
  details : Details → VideoScreen

abbrev pub screen_of : (Number → String) → Option Value → VideoScreen
screen_of format_bytes none = no_video
screen_of format_bytes (some v) = details (details_of format_bytes v)

unfoldable pub video_screen : (Number → String) → Bool → String → List Value → VideoScreen
video_screen format_bytes is_loading id videos =
    if is_loading then loading_video else screen_of format_bytes (find_video id videos)
