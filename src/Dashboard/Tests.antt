-- ===== src/Dashboard/Tests.antt =====
-- The dashboard's logic at concrete inputs.
use motionmesh.Base.{
  map, String, lookup, if◌then◌else◌, not, ◌≡◌, ◌≢◌, refl, true, false, none, some, List, [], ◌∷◌,
  ◌++◌, arith, show_nat,
}
use motionmesh.Base.Lists.{All}
use motionmesh.Js.Value.{Value, null, str, object}
use motionmesh.Js.Exception.{ok}
use motionmesh.Http.{Host, HttpRequest, HttpResponse}
use motionmesh.Dashboard.Thumbnail.{get_thumbnail}
use motionmesh.Dashboard.Thumbnail.Relay.{AsksThumbnail, Relayed, get_thumbnail-relays}
use motionmesh.Dashboard.Buckets.{BucketObject, grouped_objects}
use motionmesh.Dashboard.Buckets.Groups.{under, extend, grouped_objects-lookup}
use motionmesh.Dashboard.Pages.{Outcome}
use motionmesh.Dashboard.Toast.{
  Toast, Store, contains, add_to_remove_queue, queue_all, queue, reducer, dispatch, new_toast,
  toast, update, dismiss, fire, Event, toasted, dismissed, fired, mounted, step, run, initial,
}
use motionmesh.Dashboard.Toast.Invariant.{IsValid, run_initial-IsValid}
use motionmesh.Dashboard.Toast.Lifecycle.{dismissed_goes}
use mathlib.Core.List.{Perm}
use motionmesh.Base.{ℕ, ◌≤◌, ◌&&◌, length}
use motionmesh.Base.Ints.{pos}
use motionmesh.Js.Number.{nat, whole}
use motionmesh.Js.Value.{undefined, num, arr}
use motionmesh.Dashboard.Toast.Refinement.{view, moves, run-moves}
use motionmesh.Dashboard.Toast.Draining.{fire_all, fire_all-drains}
use motionmesh.Dashboard.Figures.{format_duration, shown_parts, join_colon}
use motionmesh.Dashboard.Figures.Clock.{read_clock, read_clock-format_duration}
use motionmesh.Dashboard.Home.{Entry, video_entry, bucket_entry, key_entry, recent_activity}
use motionmesh.Dashboard.Home.Recent.{IsOlder, recent_activity-newest}
use motionmesh.Dashboard.Settings.{
  Settings, idle, SettingsEvent, delete_opened, confirm_typed, delete_confirmed,
  handle_delete_account, run as run_settings, step as step_settings,
}
use motionmesh.Dashboard.Settings.Deletion.{Confirmed, run-Confirmed}
use motionmesh.Js.Number.{Number}
use motionmesh.Base.{◌⧺◌}
use motionmesh.Js.Value.{elements, to_values, member, bare}
use motionmesh.Js.Exception.{thrown}
use motionmesh.Dashboard.Buckets.{prefix_of, through_last_slash}
use motionmesh.Dashboard.Buckets.Table.{shown_name, substring_from, objects_total, total_size}
use motionmesh.Dashboard.Buckets.Names.{has_slash, shown_name-prefix_of}
use motionmesh.Dashboard.Buckets.Sizes.{files_shown, size_shown, grouped_objects-shown}
use motionmesh.Dashboard.Pages.{load_videos, has_processing, Screen}
use motionmesh.Dashboard.Pages.Lists.{poll_videos, list_screen, not_a_function, videos_screen}
use motionmesh.Dashboard.Pages.Polling.{poll_videos-throws}
use motionmesh.Dashboard.Pages.Video.{find_video, asks_playback, video_screen}
use motionmesh.Dashboard.Pages.Playing.{player_shown, player_shown-asks_playback}
use motionmesh.Http.{IncomingRequest, World}
use motionmesh.Http.Laws.{Sends}
use motionmesh.Sdk.Services.Requests.{IsAuthorized}
use motionmesh.Player.Process.{PlayerRequest}
use motionmesh.Player.Process.Requests.{Concluded}
use motionmesh.Dashboard.Routes.{post_sdk, post_player}
use motionmesh.Dashboard.Routes.Credentials.{post-IsAuthorized}
use motionmesh.Player.Country.{trim}
use motionmesh.Dashboard.Pages.Creating.{
  BucketForm, bucket_run, create_pressed, JobForm, JobEvent, job_pressed, job_created, jobs_loaded,
  job_run, job_step, submit_job,
}
use motionmesh.Dashboard.Pages.Creating.Submits.{
  repeat, bucket_run-repeat, IsSerial, job_run-IsSerial,
}

toasts : Unit {0}
unfolding toast update dismiss fire step run dispatch reducer queue queue_all add_to_remove_queue
    show_nat
toasts = tt

abbrev saved : Toast
saved = record {
  id = "";
  title = some "Success";
  description = some "Branding configuration saved.";
  action = none;
  open_ = none;
  on_open_change = none;
}

abbrev morning : List Event
morning = mounted 7 ∷ toasted saved ∷ toasted saved ∷ dismissed (some "2") ∷ []

-- The second toast replaces the first, and its timer takes it away.
morning_test :
    ((run morning initial).timers ≡ "2" ∷ [])
    × ((run (morning ++ fired "2" ∷ []) initial).toasts ≡ [])
    × ((run (morning ++ fired "2" ∷ []) initial).timeouts ≡ [])
unfolding toasts
morning_test = (refl, refl, refl)

run_initial-IsValid_example : IsValid (run morning initial)
run_initial-IsValid_example = run_initial-IsValid morning

abbrev shown : Store
shown = record initial { toasts = new_toast "1" saved ∷ []; count = 1; listeners = 7 ∷ [] }

shown-IsValid : IsValid shown
shown-IsValid = record {
  few = omega arith;
  queue = record { matched = refl; distinct = tt };
  counted = omega arith;
}

dismissed_goes_example :
    let s' = run (mounted 8 ∷ toasted saved ∷ []) (dismiss (some "1") shown) in
    (contains "1" s'.timers ≡ true)
    × All (λ t. t.id ≢ "1") (fire "1" s').toasts
    × (contains "1" (fire "1" s').timers ≡ false)
dismissed_goes_example =
    dismissed_goes "1" (mounted 8 ∷ toasted saved ∷ []) shown shown-IsValid refl (tt, (tt, tt))

-- A redirect of the API to a store.
abbrev moved : HttpResponse
moved = record {
  status = 307;
  status_text = "Temporary Redirect";
  headers = ("location", "https://store/t.jpg") ∷ [];
  json = ok null;
  text = ok "";
}

abbrev host : Host
host = record { fetch = λ before r. ok moved; env = λ name. none }

get_thumbnail-relays_example :
    (q : HttpRequest) × AsksThumbnail (λ u. true) host "v1" "jwt" q
    × Relayed
        (λ u. true)
        host
        "v1"
        (record { sent = []; progress = [] })
        q
        (get_thumbnail
          (λ u. true)
          host
          "v1"
          (ok (some "jwt"))
          (record { sent = []; progress = [] }))
get_thumbnail-relays_example =
    get_thumbnail-relays (λ u. true) host "v1" "jwt" (record { sent = []; progress = [] }) refl

abbrev object_at : String → BucketObject
object_at key = record {
  id = key;
  key = key;
  size_bytes = 1;
  content_type = "";
  uploaded_at = null;
}

abbrev two_objects : List BucketObject
two_objects = object_at "videos/v1/a.ts" ∷ object_at "b.mp4" ∷ []

grouped_objects-lookup_example :
    lookup "videos/v1/" (grouped_objects (some two_objects))
    ≡ extend none (under "videos/v1/" two_objects)
grouped_objects-lookup_example = grouped_objects-lookup "videos/v1/" two_objects

abbrev video : String → Value
video status = object (("id", str "v") ∷ ("status", str status) ∷ [])

run-moves_example : view (run morning shown) ≡ moves morning (view shown)
run-moves_example = run-moves morning shown shown-IsValid

abbrev leaving : Store
leaving = record shown { timeouts = "1" ∷ "0" ∷ []; timers = "1" ∷ "0" ∷ [] }

leaving-IsValid : IsValid leaving
leaving-IsValid = record {
  few = omega arith;
  queue = record { matched = refl; distinct = (refl, (refl, tt)) };
  counted = omega arith;
}

fire_all-drains_example :
    let s' = fire_all leaving.timers leaving in
    (s'.timers ≡ [])
    × (s'.timeouts ≡ [])
    × ((k : String) → contains k leaving.timers ≡ true → All (λ t. t.id ≢ k) s'.toasts)
fire_all-drains_example = fire_all-drains leaving leaving-IsValid

read_clock-format_duration_example : read_clock (format_duration 3723) ≡ 3723
read_clock-format_duration_example = read_clock-format_duration 3723

format_duration_test :
    (format_duration 3723 ≡ "1:02:03")
    × (format_duration 65 ≡ "1:05")
    × (format_duration 7 ≡ "0:07")
unfolding format_duration shown_parts join_colon show_nat
format_duration_test = (refl, refl, refl)

abbrev a_video : Value
a_video = object (("id", str "v1") ∷ ("title", str "Intro") ∷ ("created_at", num (nat 30)) ∷ [])

abbrev a_bucket : Value
a_bucket = object (("id", str "b1") ∷ ("name", str "media") ∷ ("createdAt", num (nat 50)) ∷ [])

-- Dates that are numbers already.
abbrev millis : Value → ℕ
millis (num (whole (pos n))) = n
millis _ = 0

recent_activity-newest_example :
    (left_out : List Entry) × (length (recent_activity millis "" (a_video ∷ []) (a_bucket ∷ []) [])
      ≤ 5)
    × Perm (recent_activity millis "" (a_video ∷ []) (a_bucket ∷ []) [] ++ left_out) (
        map video_entry (a_video ∷ [])
        ++ (map (bucket_entry "") (a_bucket ∷ []) ++ map (key_entry "") []))
    × All
        (λ e. All (IsOlder millis e) left_out)
        (recent_activity millis "" (a_video ∷ []) (a_bucket ∷ []) [])
recent_activity-newest_example = recent_activity-newest millis "" (a_video ∷ []) (a_bucket ∷ []) []

abbrev workspace : Settings
workspace = record {
  account_name = "Acme";
  is_saving_name = false;
  delete_step = idle;
  delete_confirm_text = "";
  saves = 0;
  toasts = [];
}

abbrev deletion : List SettingsEvent
deletion = delete_opened ∷ confirm_typed "Acme" ∷ delete_confirmed ∷ []

run-Confirmed_example : Confirmed deletion workspace
unfolding run_settings step_settings handle_delete_account
run-Confirmed_example = run-Confirmed deletion workspace tt refl

shown_name-prefix_of_example :
    (if has_slash "a.mp4" then prefix_of "a.mp4" else "a") ⧺ shown_name (prefix_of "a.mp4") "a.mp4"
    ≡ "a.mp4"
shown_name-prefix_of_example = shown_name-prefix_of "a" ".mp4"

-- A key with no slash loses its first letter.
shown_name_test :
    (shown_name (prefix_of "a.mp4") "a.mp4" ≡ ".mp4")
    × (shown_name (prefix_of "videos/a.mp4") "videos/a.mp4" ≡ "a.mp4")
unfolding shown_name prefix_of through_last_slash substring_from
shown_name_test = (refl, refl)

grouped_objects-shown_example :
    (files_shown (grouped_objects (some two_objects)) ≡ objects_total (some two_objects))
    × (size_shown (grouped_objects (some two_objects)) ≡ total_size two_objects)
grouped_objects-shown_example = grouped_objects-shown two_objects

-- The answer of the API with the list of videos under its name.
abbrev listed_videos : Outcome
listed_videos = record {
  data_ = object (("videos", arr (to_values (video "processing" ∷ []))) ∷ []);
  error_ = undefined;
  status = 200;
}

abbrev first_screen : Screen
first_screen = record {
  is_busy = false;
  is_dialog_open = false;
  name = "";
  region = "";
  cache = none;
  is_stale = false;
  toasts = [];
  place = none;
}

abbrev in_megabytes : Number → String
in_megabytes n = "1 MB"

poll_videos-throws_example :
    ((load_videos listed_videos first_screen).0 ≡ ok (arr (to_values (video "processing" ∷ []))))
    × (videos_screen in_megabytes false false (arr (to_values (video "processing" ∷ [])))
        ≡ ok (
          has_processing (elements (to_values (video "processing" ∷ []))),
          list_screen in_megabytes false false (elements (to_values (video "processing" ∷ []))),
        ))
    × (videos_screen in_megabytes false false (poll_videos listed_videos null)
        ≡ thrown not_a_function)
poll_videos-throws_example =
    poll_videos-throws listed_videos
      (member "videos" (arr (to_values (video "processing" ∷ []))) bare)
      (to_values (video "processing" ∷ [])) first_screen null in_megabytes false false refl refl
      refl

player_shown-asks_playback_example :
    player_shown (video_screen in_megabytes false "v" (video "ready" ∷ [])) ≡ (
      if not false && asks_playback (find_video "v" (video "ready" ∷ []))
      then some (str "v")
      else none)
player_shown-asks_playback_example =
    player_shown-asks_playback in_megabytes false "v" (video "ready" ∷ [])

-- Nobody is signed in, and the environment has a key.
abbrev keyed : Host
keyed = record { fetch = λ before r. ok moved; env = λ name. some "mot_live_k" }

abbrev front_request : IncomingRequest
front_request = record {
  url = "https://app/api/motionmesh";
  headers = ("content-type", "application/json") ∷ [];
  json = ok (object (("type", str "listJobs") ∷ []));
  form = thrown not_a_function;
}

abbrev any_settings : PlayerRequest
any_settings = record {
  search_params = ok (("kind", "settings") ∷ []);
  headers = [];
  json = thrown not_a_function;
}

abbrev nothing_sent : World
nothing_sent = record { sent = []; progress = [] }

post-IsAuthorized_example :
    Sends (IsAuthorized keyed "mot_live_k") (post_sdk keyed (ok none) front_request)
    × Concluded keyed "mot_live_k" nothing_sent
        (post_player keyed (ok none) any_settings "now" nothing_sent)
post-IsAuthorized_example =
    post-IsAuthorized keyed front_request any_settings "now" nothing_sent none "mot_live_k" refl
      refl

-- The form of a bucket, filled in.
abbrev filled_form : BucketForm
filled_form = record {
  is_create_open = true;
  new_bucket_name = "media";
  new_bucket_region = "us-east-1";
  cache = none;
  stale = 0;
  pending = [];
  sent = [];
  toasts = [];
}

bucket_run-repeat_example :
    let s' = bucket_run (repeat 2 create_pressed) filled_form in
    (s'.sent ≡ [] ++ repeat 2 ("media", "us-east-1"))
    × (s'.pending ≡ [] ++ repeat 2 ("media", "us-east-1"))
bucket_run-repeat_example = bucket_run-repeat 2 filled_form refl refl

abbrev typed_job : JobForm
typed_job = record {
  video_id = " v1 ";
  is_submitting = false;
  calling = [];
  refetching = 0;
  sent = [];
  toasts = [];
}

abbrev pressing : List JobEvent
pressing = job_pressed ∷ job_pressed ∷ job_created ∷ job_pressed ∷ jobs_loaded ∷ []

job_run-IsSerial_example : IsSerial (job_run pressing typed_job)
job_run-IsSerial_example = job_run-IsSerial pressing typed_job (refl, tt)

-- Of the three presses one sends.
pressing_test : (job_run pressing typed_job).sent ≡ "v1" ∷ []
unfolding job_run job_step submit_job trim
pressing_test = refl
