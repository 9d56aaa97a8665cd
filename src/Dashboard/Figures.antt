-- ===== src/Dashboard/Figures.antt =====
-- client/dashboard/src/lib/utils.ts, `formatDuration`, and components/dashboard: UsageMeter,
-- StatusBadge and VideoJobRow. Durations are whole seconds. The quotient of a meter is taken as
-- an exact fraction, and so are the comparisons with it; a size is shown as `formatBytes` shows it,
-- which takes logarithms and is given.
pub mod Clock
pub mod Levels
use motionmesh.Base.{
  ℕ, zero, suc, ◌+◌, ◌*◌, ◌/◌, ◌%◌, Bool, true, false, not, ◌&&◌, Option, none, some, String, List,
  [], ◌∷◌, leb, ltb, ◌==◌, if◌then◌else◌, is_empty, ◌⧺◌, show_nat,
}
use motionmesh.Js.Value.{Value, undefined, num, str, get, is_truthy, to_string}
use motionmesh.Base.Ints.{pos, negsuc}
use motionmesh.Js.Number.{Number, whole, nan, is_positive}
use motionmesh.Dashboard.Activity.{is_text}

-- What stands in the array that `formatDuration` joins: a number, or a text that is not empty.
pub data Part : Type 0 where
  number : ℕ → Part
  text : String → Part

-- `Boolean(part)`
abbrev pub is_shown : Part → Bool
is_shown (number zero) = false
is_shown (number (suc n)) = true
is_shown (text s) = not (is_empty s)

abbrev pub show_part : Part → String
show_part (number n) = show_nat n
show_part (text s) = s

unfoldable pub shown_parts : List Part → List String
shown_parts [] = []
shown_parts (p ∷ ps) = let rest = shown_parts ps in if is_shown p then show_part p ∷ rest else rest

unfoldable pub join_colon : List String → String
join_colon [] = ""
join_colon (s ∷ []) = s
join_colon (s ∷ t ∷ rest) = s ⧺ (":" ⧺ join_colon (t ∷ rest))

-- `m > 9 ? m : h ? '0' + m : m || '0'`
abbrev pub minutes_part : ℕ → ℕ → Part
minutes_part h m =
    if ltb 9 m
    then number m
    else if ltb 0 h
    then text ("0" ⧺ show_nat m)
    else if ltb 0 m
    then number m
    else text "0"

-- `s > 9 ? s : '0' + s`
abbrev pub seconds_part : ℕ → Part
seconds_part s = if ltb 9 s then number s else text ("0" ⧺ show_nat s)

-- `formatDuration(seconds)`
unfoldable pub format_duration : ℕ → String
format_duration seconds =
    let h = seconds / 3600 in
    let m = seconds % 3600 / 60 in
    let s = seconds % 60 in
    join_colon (shown_parts (number h ∷ minutes_part h m ∷ seconds_part s ∷ []))

-- `percentage` of a meter, as a fraction whose denominator is not 0.
pub record Percentage : Type 0 where
  pub over : ℕ
  pub under : ℕ

-- `limit > 0 ? Math.min((used / limit) * 100, 100) : 0`
unfoldable pub percentage : ℕ → ℕ → Percentage
percentage used limit =
    if ltb 0 limit
    then if leb limit used
      then record { over = 100; under = 1 }
      else record { over = used * 100; under = limit }
    else record { over = 0; under = 1 }

-- `percentage >= n`
abbrev pub is_at_least : Percentage → ℕ → Bool
is_at_least p n = leb (n * p.under) p.over

pub data Level : Type 0 where
  normal : Level
  warning : Level
  danger : Level

abbrev pub is_warning : Percentage → Bool
is_warning p = is_at_least p 80 && not (is_at_least p 95)

abbrev pub is_danger : Percentage → Bool
is_danger p = is_at_least p 95

-- `isDanger ? "bg-danger" : isWarning ? "bg-warning" : "bg-accent-motion"`
unfoldable pub meter_level : ℕ → ℕ → Level
meter_level used limit =
    let p = percentage used limit in
    if is_danger p then danger else if is_warning p then warning else normal

-- `statusLabels[status]`
abbrev pub status_label : Value → Value
status_label status =
    if is_text "ready" status
    then str "Ready"
    else if is_text "processing" status
    then str "Processing"
    else if is_text "queued" status
    then str "Queued"
    else if is_text "failed" status
    then str "Failed"
    else undefined

-- The row of a video: where its picture comes from, if it has one, how far its job is, if it is
-- being processed, and the texts of the columns.
pub record Row : Type 0 where
  pub thumbnail : Option String
  pub link : String
  pub title : Value
  pub progress : Option ℕ
  pub duration : String
  pub badge : Value
  pub size : String

-- `video.duration > 0 ? formatDuration(video.duration) : "-"`
abbrev pub duration_of : Number → String
duration_of (whole (pos zero)) = "-"
duration_of (whole (pos (suc n))) = format_duration (suc n)
duration_of (whole (negsuc n)) = "-"
duration_of nan = "-"

abbrev pub duration_column : Value → String
duration_column (num n) = duration_of n
duration_column _ = "-"

-- `video.size_bytes && video.size_bytes > 0 ? formatBytes(video.size_bytes) : "-"`
abbrev pub size_column : (Number → String) → Value → String
size_column format_bytes (num n) = if is_positive n then format_bytes n else "-"
size_column format_bytes _ = "-"

abbrev pub row_progress : Value → Option ℕ
row_progress video = if is_text "processing" (get "status" video) then some 50 else none

-- `VideoJobRow`; the date is left to the browser.
unfoldable pub video_job_row : (Number → String) → Value → Row
video_job_row format_bytes video = record {
  thumbnail =
      if is_truthy (get "thumbnail_key" video) && is_text "ready" (get "status" video)
      then some ("/api/videos/" ⧺ (to_string (get "id" video) ⧺ "/thumbnail"))
      else none;
  link = "/dashboard/videos/" ⧺ to_string (get "id" video);
  title = get "title" video;
  progress = row_progress video;
  duration = duration_column (get "duration" video);
  badge = status_label (get "status" video);
  size = size_column format_bytes (get "size_bytes" video);
}
