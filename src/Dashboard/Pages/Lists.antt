-- ===== src/Dashboard/Pages/Lists.antt =====
-- client/dashboard/src/app/dashboard: what the pages that list videos, buckets and jobs show of what
-- the query library holds for them. Dates are left to the browser, and sizes to `formatBytes`.
use motionmesh.Base.{
  ℕ, Bool, true, false, Option, none, some, String, List, [], ◌∷◌, if◌then◌else◌, take, codes, ◌⧺◌,
}
use motionmesh.Base.Ints.{pos}
use motionmesh.Js.Number.{Number, whole, is_positive, show_number}
use motionmesh.Js.Value.{Value, num, arr, stop, elements, get, is_truthy, or_nullish, to_string}
use motionmesh.Js.Exception.{Exception, error, Result, ok, thrown}
use motionmesh.Js.Base64.{of_codes}
use motionmesh.Dashboard.Activity.{is_text}
use motionmesh.Dashboard.Figures.{Row, video_job_row, Level, meter_level}
use motionmesh.Dashboard.Pages.{Outcome, has_processing}

-- The polling of the page of videos: what is cached for `videos` after its call.
unfoldable pub poll_videos : Outcome → Value → Value
poll_videos o cached = if is_truthy o.data_ then o.data_ else cached

pub data VideosScreen : Type 0 where
  loading : VideosScreen
  failed : VideosScreen
  rows : List Row → VideosScreen
  no_videos : VideosScreen

unfoldable pub video_rows : (Number → String) → List Value → List Row
video_rows format_bytes [] = []
video_rows format_bytes (v ∷ vs) = video_job_row format_bytes v ∷ video_rows format_bytes vs

-- Below the title, for a list.
abbrev pub list_screen : (Number → String) → Bool → Bool → List Value → VideosScreen
list_screen format_bytes true is_error videos = loading
list_screen format_bytes false true videos = failed
list_screen format_bytes false false [] = no_videos
list_screen format_bytes false false (v ∷ vs) = rows (video_rows format_bytes (v ∷ vs))

abbrev pub not_a_function : Exception
not_a_function = error "videos.some is not a function"

-- The page, from what is cached: whether it polls, and what it shows. A call of `some` on what is
-- no array throws.
abbrev pub videos_of : (Number → String) → Bool → Bool → Value → Result (Bool × VideosScreen)
videos_of format_bytes is_loading is_error (arr vs) =
    ok (has_processing (elements vs), list_screen format_bytes is_loading is_error (elements vs))
videos_of format_bytes is_loading is_error _ = thrown not_a_function

unfoldable pub videos_screen :
    (Number → String) → Bool → Bool → Value → Result (Bool × VideosScreen)
videos_screen format_bytes is_loading is_error cached =
    videos_of format_bytes is_loading is_error (or_nullish cached (arr stop))

-- A line of the page of buckets, with the meters of its storage and its egress.
pub record BucketLine : Type 0 where
  pub link : String
  pub name : Value
  pub region : Value
  pub object_count : Value
  pub storage : Level
  pub egress : Level

-- A size that is not a whole number of 0 or more does not occur.
abbrev pub size_of : Value → ℕ
size_of (num (whole (pos n))) = n
size_of _ = 0

abbrev pub level_of : String → String → Value → Level
level_of used limit bucket = meter_level (size_of (get used bucket)) (size_of (get limit bucket))

unfoldable pub bucket_line : Value → BucketLine
bucket_line b = record {
  link = "/dashboard/buckets/" ⧺ to_string (get "id" b);
  name = get "name" b;
  region = get "region" b;
  object_count = get "objectCount" b;
  storage = level_of "storageUsedBytes" "storageLimitBytes" b;
  egress = level_of "egressUsedBytes" "egressLimitBytes" b;
}

pub data BucketsScreen : Type 0 where
  buckets_failed : BucketsScreen
  bucket_lines : List BucketLine → BucketsScreen
  no_buckets : BucketsScreen

unfoldable pub lines_of : List Value → List BucketLine
lines_of [] = []
lines_of (b ∷ bs) = bucket_line b ∷ lines_of bs

unfoldable pub buckets_screen : Bool → List Value → BucketsScreen
buckets_screen true buckets = buckets_failed
buckets_screen false [] = no_buckets
buckets_screen false (b ∷ bs) = bucket_lines (lines_of (b ∷ bs))

-- A line of the page of media conversion: the beginnings of the ids, the status, and how far the
-- job is, if it is under way and has begun.
pub record JobLine : Type 0 where
  pub job : String
  pub video : String
  pub status : Value
  pub progress : Option String

-- `id.slice(0, 8)`, with the dots.
abbrev pub short_id : String → String
short_id id = of_codes (take 8 (codes id)) ⧺ "…"

abbrev pub positive_text : Value → Option String
positive_text (num n) = if is_positive n then some (show_number n ⧺ "%") else none
positive_text _ = none

-- `JobStatusBadge`
abbrev pub job_progress : Value → Value → Option String
job_progress status progress =
    let shown = positive_text progress in if is_text "processing" status then shown else none

unfoldable pub job_line : Value → JobLine
job_line j = record {
  job = short_id (to_string (get "id" j));
  video = short_id (to_string (get "video_id" j));
  status = get "status" j;
  progress = job_progress (get "status" j) (get "progress_percent" j);
}
