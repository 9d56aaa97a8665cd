-- ===== src/Dashboard/Home.antt =====
-- client/dashboard/src/app/dashboard/page.tsx: what the home page makes of the videos, the buckets
-- and the API keys, a missing list being the empty one, and the state of its introduction. What
-- `new Date(timestamp).getTime()` gives, for the dates of the API, is given as whole milliseconds.
pub mod Recent
pub mod Introduction
use motionmesh.Base.{
  ℕ, zero, suc, ◌+◌, ◌/◌, Bool, true, false, not, ◌&&◌, Option, none, some, String, List, [], ◌∷◌,
  ◌++◌, map, take, leb, ltb, if◌then◌else◌, is_empty, ◌⧺◌, show_nat, ◌%◌, ◌==◌,
}
use motionmesh.Base.Ints.{pos, negsuc, ◌-ℤ◌}
use motionmesh.Js.Number.{Number, whole, nan, nat, add}
use motionmesh.Js.Value.{Value, str, num, get, or, is_truthy, to_string, to_number}
use motionmesh.Dashboard.Activity.{is_text}

-- An entry of the feed.
pub record Entry : Type 0 where
  pub id : String
  pub actor : String
  pub action : String
  pub resource : Value
  pub timestamp : Value

abbrev pub video_entry : Value → Entry
video_entry v = record {
  id = "vid-" ⧺ to_string (get "id" v);
  actor = "System";
  action = "processed video";
  resource = get "title" v;
  timestamp = get "created_at" v;
}

-- `b.createdAt || b.created_at || new Date().toISOString()`
abbrev pub made_at : String → Value → Value
made_at now v = or (get "createdAt" v) (or (get "created_at" v) (str now))

abbrev pub bucket_entry : String → Value → Entry
bucket_entry now b = record {
  id = "bkt-" ⧺ to_string (get "id" b);
  actor = "You";
  action = "created bucket";
  resource = get "name" b;
  timestamp = made_at now b;
}

abbrev pub key_entry : String → Value → Entry
key_entry now k = record {
  id = "key-" ⧺ to_string (get "id" k);
  actor = "You";
  action = "generated API key";
  resource = or (get "name" k) (str "default");
  timestamp = made_at now k;
}

unfoldable pub all_entries : String → List Value → List Value → List Value → List Entry
all_entries now videos buckets api_keys =
    map video_entry videos ++ (map (bucket_entry now) buckets ++ map (key_entry now) api_keys)

module _ (time_of : Value → ℕ) where
  -- An entry before the first one that is not newer.
  unfoldable pub insert : Entry → List Entry → List Entry
  insert e [] = e ∷ []
  insert e (f ∷ fs) =
      let rest = insert e fs in
      if leb (time_of f.timestamp) (time_of e.timestamp) then e ∷ f ∷ fs else f ∷ rest

  -- `.sort((a, b) => time(b) - time(a))`, which is stable.
  unfoldable pub sort : List Entry → List Entry
  sort [] = []
  sort (e ∷ es) = insert e (sort es)

  -- `recentActivity`
  unfoldable pub recent_activity : String → List Value → List Value → List Value → List Entry
  recent_activity now videos buckets api_keys =
      take 5 (sort (all_entries now videos buckets api_keys))

-- `videos.filter((v) => v.status === status).length`
unfoldable pub count_status : String → List Value → ℕ
count_status status [] = 0
count_status status (v ∷ vs) =
    (if is_text status (get "status" v) then 1 else 0) + count_status status vs

-- `totalActiveJobs`
unfoldable pub total_active_jobs : List Value → ℕ
total_active_jobs videos = count_status "queued" videos + count_status "processing" videos

-- `Number(v) || 0`
abbrev pub number_or_zero : Value → Number
number_or_zero v = elim (to_number v) [ whole n ↦ whole n | nan ↦ nat 0 ]

-- `storageUsedBytes` and `egressUsedBytes`, by the name of the field.
unfoldable pub used_bytes_from : String → Number → List Value → Number
used_bytes_from name acc [] = acc
used_bytes_from name acc (b ∷ bs) = used_bytes_from name (add acc (number_or_zero (get name b))) bs

-- `Math.ceil(n / 60)`
abbrev pub minutes_of : Number → Number
minutes_of (whole (pos n)) = nat ((n + 59) / 60)
minutes_of (whole (negsuc n)) = whole (pos 0 -ℤ pos (suc n / 60))
minutes_of nan = nan

-- `transcodeMinutesUsed`
unfoldable pub transcode_minutes_from : Number → List Value → Number
transcode_minutes_from acc [] = acc
transcode_minutes_from acc (v ∷ vs) =
    transcode_minutes_from (add acc (minutes_of (number_or_zero (get "duration" v)))) vs

-- The state of the page and the mark that it leaves in `localStorage`.
pub record Page : Type 0 where
  pub show_onboarding : Bool
  pub is_mounted : Bool
  pub dismissed : Option String

abbrev pub is_dismissed : Option String → Bool
is_dismissed none = false
is_dismissed (some mark) = not (is_empty mark)

-- The effect on the number of videos.
unfoldable pub effect : ℕ → Page → Page
effect videos s = record s {
  is_mounted = true;
  show_onboarding =
      if not (is_dismissed s.dismissed) && ltb videos 5 then true else s.show_onboarding;
}

unfoldable pub dismiss_onboarding : Page → Page
dismiss_onboarding s = record s { dismissed = some "true"; show_onboarding = false }

-- A visit of the page starts with fresh state.
abbrev pub visit : Page → Page
visit s = record s { show_onboarding = false; is_mounted = false }

pub data HomeEvent : Type 0 where
  counted : ℕ → HomeEvent
  dismissed : HomeEvent
  visited : HomeEvent

unfoldable pub step : HomeEvent → Page → Page
step (counted videos) s = effect videos s
step dismissed s = dismiss_onboarding s
step visited s = visit s

unfoldable pub run : List HomeEvent → Page → Page
run [] s = s
run (e ∷ es) s = run es (step e s)

-- What the head says of the active jobs, if there are any.
unfoldable pub jobs_text : List Value → Option String
jobs_text videos =
    let jobs = total_active_jobs videos in
    if ltb 0 jobs
    then some (show_nat jobs ⧺ (" active job" ⧺ (if jobs == 1 then "" else "s")))
    else none

-- `(n % 60).toString().padStart(2, '0')`
abbrev pub two_digits : ℕ → String
two_digits n = if ltb n 10 then "0" ⧺ show_nat n else show_nat n

-- The minutes and seconds of a video in the list of recent ones.
abbrev pub clock_of : ℕ → String
clock_of n = show_nat (n / 60) ⧺ (":" ⧺ two_digits (n % 60))

-- A duration that is missing counts as 0; one below 0 does not occur.
abbrev pub clock_text : Value → String
clock_text (num (whole (pos n))) = clock_of n
clock_text _ = "0:00"

pub record RecentVideo : Type 0 where
  pub has_picture : Bool
  pub clock : String
  pub title : Value
  pub status : Value

unfoldable pub recent_lines : List Value → List RecentVideo
recent_lines [] = []
recent_lines (v ∷ vs) =
    (record {
      has_picture = is_truthy (get "thumbnail_key" v);
      clock = clock_text (get "duration" v);
      title = get "title" v;
      status = get "status" v;
    })
    ∷ recent_lines vs

-- `recentVideos`
unfoldable pub recent_videos : List Value → List RecentVideo
recent_videos videos = recent_lines (take 3 videos)
