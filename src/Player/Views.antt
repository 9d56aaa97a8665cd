-- ===== src/Player/Views.antt =====
-- sdk/js/packages/player/src/react/index.tsx, the component MotionmeshPlayer: its state and refs,
-- the lock of unique views, the requests for the video and the events it reports. The component
-- is a machine: an event is a change of its property, a call of a handler, or the end of a
-- request. Positions in the video are in milliseconds, dates in milliseconds too.
pub mod Unique
pub mod Expiry
pub mod Heartbeats
pub mod Loading
use motionmesh.Base.{
  ℕ, zero, suc, ◌+◌, ◌-◌, Bool, true, false, not, ◌&&◌, Option, none, some, String, List, [], ◌∷◌,
  ◌++◌, leb, if◌then◌else◌, is_empty, ◌⧺◌, str_eq, show_nat, lookup, assign, erase,
}
use motionmesh.Base.Ints.{ℤ, pos, leb_ℤ}
use motionmesh.Js.Number.{Number, whole, nan, nat, subtract, text_to_number}
use motionmesh.Js.Value.{Value, undefined, null, get, is_truthy}

-- `UNIQUE_VIEW_TTL_MS`: 30 days.
abbrev pub unique_view_ttl_ms : ℕ
unique_view_ttl_ms = 2592000000

abbrev pub lock_key : String → String
lock_key video_tracking_id = "vmx_view_" ⧺ video_tracking_id

pub data Kind : Type 0 where
  play : Kind
  pause : Kind
  heartbeat : Kind
  seek : Kind
  ended : Kind

-- The body of an event that is reported.
pub record Posted : Type 0 where
  pub kind : Kind
  pub current_time : ℕ
  pub token : Value
  pub geo : Value
  pub is_unique : Bool

-- An event's request under way, with what its continuation holds.
pub record Pending : Type 0 where
  pub key : String
  pub time : ℕ

-- `posted` and `fetched` are what the component has sent: the events, and the videos asked for.
pub record Viewer : Type 0 where
  pub video_tracking_id : String
  pub video_data : Value
  pub is_loading : Bool
  pub user_country : Value
  pub unique_eligible : Bool
  pub unique_locked : Bool
  pub last_heartbeat_time : ℕ
  pub storage_works : Bool
  pub storage : List (String × String)
  pub pending : List Pending
  pub posted : List Posted
  pub fetched : List String

-- `ageMs >= UNIQUE_VIEW_TTL_MS`
abbrev pub is_old : Number → Bool
is_old (whole age) = leb_ℤ (pos unique_view_ttl_ms) age
is_old nan = false

-- `localStorage.removeItem(lockKey); uniqueEligible.current = true`
abbrev pub clear_lock : String → Viewer → Viewer
clear_lock key s = record s { storage = erase key s.storage; unique_eligible = true }

abbrev pub judge_lock : String → ℕ → Viewer → Number → Viewer
judge_lock key now s nan = clear_lock key s
judge_lock key now s (whole last_view) =
    if is_old (subtract (nat now) (whole last_view)) then clear_lock key s else s

abbrev pub read_lock : String → ℕ → Viewer → Option String → Viewer
read_lock key now s none = record s { unique_eligible = true }
read_lock key now s (some raw) =
    if is_empty raw
    then record s { unique_eligible = true }
    else judge_lock key now s (text_to_number raw)

-- The effect on `videoTrackingId` that looks for a lock.
unfoldable pub init_view_lock : ℕ → Viewer → Viewer
init_view_lock now s =
    let s' = record s { unique_eligible = false; unique_locked = false } in
    let key = lock_key s.video_tracking_id in
    if is_empty s.video_tracking_id
    then s'
    else if s.storage_works
    then read_lock key now s' (lookup key s.storage)
    else s'

-- `fetchVideoData()` up to its `await`.
unfoldable pub fetch_video_data : Viewer → Viewer
fetch_video_data s =
    if s.is_loading
    then s
    else record s { is_loading = true; fetched = s.fetched ++ s.video_tracking_id ∷ [] }

-- The rest of it: the data, or none where the request fails in one way or another.
unfoldable pub answer_video_data : Option Value → Viewer → Viewer
answer_video_data none s = record s { is_loading = false }
answer_video_data (some data_) s = record s { video_data = data_; is_loading = false }

-- Both effects on `videoTrackingId`, in the order of the component.
unfoldable pub run_effects : ℕ → Viewer → Viewer
run_effects now s =
    let s' = init_view_lock now s in
    if is_empty s'.video_tracking_id then s' else fetch_video_data s'

-- A render with another id; effects run only where the id differs.
unfoldable pub change_id : String → ℕ → Viewer → Viewer
change_id id now s =
    if str_eq id s.video_tracking_id
    then s
    else run_effects now (record s { video_tracking_id = id })

abbrev pub is_unique_at : Viewer → ℕ → Bool
is_unique_at s current_time = s.unique_eligible && not s.unique_locked && leb 3000 current_time

-- `userCountry || undefined`
abbrev pub geo_of : Value → Value
geo_of country = if is_truthy country then country else undefined

abbrev pub event_of : Kind → ℕ → Viewer → Posted
event_of kind current_time s = record {
  kind = kind;
  current_time = current_time;
  token = get "analyticsToken" s.video_data;
  geo = geo_of s.user_country;
  is_unique = is_unique_at s current_time;
}

-- `sendAnalyticsEvent(event, currentTime)` up to its `await`.
unfoldable pub send_analytics_event : Kind → ℕ → Viewer → Viewer
send_analytics_event kind current_time s =
    if is_truthy (get "analyticsToken" s.video_data)
    then record s {
      posted = s.posted ++ event_of kind current_time s ∷ [];
      pending =
          s.pending ++ (record { key = lock_key s.video_tracking_id; time = current_time }) ∷ [];
    }
    else s

-- The rest of it after an answer, whose status does not count, or after a failure.
unfoldable pub conclude_event : Pending → Bool → ℕ → Viewer → Viewer
conclude_event p false now s = s
conclude_event p true now s =
    if is_unique_at s p.time
    then record s {
      unique_locked = true;
      storage = if s.storage_works then assign p.key (show_nat now) s.storage else s.storage;
    }
    else s

-- The requests under way without the one at an index, and that one.
unfoldable pub take_out : ℕ → List Pending → Option (Pending × List Pending)
take_out i [] = none
take_out zero (p ∷ ps) = some (p, ps)
take_out (suc i) (p ∷ ps) = elim (take_out i ps) [
  | none ↦ none
  | some (q, rest) ↦ some (q, p ∷ rest)
]

abbrev pub settle_one : Option (Pending × List Pending) → Bool → ℕ → Viewer → Viewer
settle_one none is_answered now s = s
settle_one (some (p, rest)) is_answered now s =
    conclude_event p is_answered now (record s { pending = rest })

-- The request at an index ends, in any order.
unfoldable pub settle : ℕ → Bool → ℕ → Viewer → Viewer
settle i is_answered now s = settle_one (take_out i s.pending) is_answered now s

-- `onPlay`
unfoldable pub on_play : ℕ → Viewer → Viewer
unfolding send_analytics_event
on_play current_time s = record (send_analytics_event play current_time s) {
  last_heartbeat_time = current_time;
}

-- `onTimeUpdate`; a position before the last heartbeat gives a negative difference.
unfoldable pub on_time_update : ℕ → Viewer → Viewer
unfolding send_analytics_event
on_time_update current_time s =
    if leb (s.last_heartbeat_time + 15000) current_time
    then record (send_analytics_event heartbeat current_time s) {
      last_heartbeat_time = current_time;
    }
    else s

pub data Event : Type 0 where
  id_changed : String → ℕ → Event
  video_answered : Option Value → Event
  country_found : Value → Event
  played : ℕ → Event
  paused : ℕ → Event
  finished : ℕ → Event
  seeked : ℕ → Event
  time_updated : ℕ → Event
  settled : ℕ → Bool → ℕ → Event

unfoldable pub step : Event → Viewer → Viewer
unfolding change_id answer_video_data on_play send_analytics_event on_time_update settle
step (id_changed id now) s = change_id id now s
step (video_answered answer) s = if s.is_loading then answer_video_data answer s else s
step (country_found country) s = record s { user_country = country }
step (played t) s = on_play t s
step (paused t) s = send_analytics_event pause t s
step (finished t) s = send_analytics_event ended t s
step (seeked t) s = send_analytics_event seek t s
step (time_updated t) s = on_time_update t s
step (settled i is_answered now) s = settle i is_answered now s

unfoldable pub run : List Event → Viewer → Viewer
unfolding step
run [] s = s
run (e ∷ es) s = run es (step e s)

-- The state and the refs as they are declared, with what `localStorage` has.
abbrev pub unmounted : String → Bool → List (String × String) → Viewer
unmounted id storage_works storage = record {
  video_tracking_id = id;
  video_data = undefined;
  is_loading = false;
  user_country = null;
  unique_eligible = false;
  unique_locked = false;
  last_heartbeat_time = 0;
  storage_works = storage_works;
  storage = storage;
  pending = [];
  posted = [];
  fetched = [];
}

-- The component after its first render, with what earlier visits left in `localStorage`.
unfoldable pub mount : String → ℕ → Bool → List (String × String) → Viewer
mount id now storage_works storage = run_effects now (unmounted id storage_works storage)
