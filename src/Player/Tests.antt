-- ===== src/Player/Tests.antt =====
-- The player's handler and its country at concrete inputs.
use motionmesh.Base.{
  ℕ, leb, List, ◌≡◌, refl, true, false, String, [], ◌∷◌, ◌++◌, some, none, ◌↔◌, ◌+◌, codes, ◌⧺◌,
  arith,
}
use motionmesh.Js.Number.{nat}
use motionmesh.Js.Value.{Value, null, str, num, object, or, to_json}
use motionmesh.Js.Exception.{Result, ok}
use motionmesh.Js.Base64.{atob, of_codes}
use motionmesh.Http.{Host, World, HttpRequest, HttpResponse, json}
use motionmesh.Player.Keys.{is_probably_jwt, verify_api_key_signature}
use motionmesh.Player.Keys.Jwt.{Segments, is_probably_jwt_iff}
use motionmesh.Player.Country.{
  Browser, State, CountryResponse, look_up, ask_service, get_user_country, trim,
}
use motionmesh.Player.Country.Caching.{get_user_country_again}
use motionmesh.Player.Process.{PlayerRequest, base_url, handle_process_request}
use motionmesh.Player.Process.Requests.{Concluded, handle_process_request-relayed}
use motionmesh.Base.Lists.{All}
use motionmesh.Player.Subtitles.{srt_to_vtt}
use motionmesh.Player.Subtitles.Stamps.{Dotted}
use motionmesh.Player.Subtitles.Lines.{
  IsLine, join, join_ends, texts_of, without_numbers, srt_to_vtt-lines,
}
use motionmesh.Player.Urls.{extract_token_params, requested}
use motionmesh.Player.Urls.Signing.{requested-requested}
use motionmesh.Player.Reports.{posted_body, IsAccepted, event_of-collected}
use motionmesh.Player.Reports.Accepted.{run-mount-AllAccepted}
use motionmesh.Player.Media.{
  MediaEvent, loaded, rendered, failed, late_loaded, unmounted as gone, run as run_media,
  mount as mount_media, step as step_media, render as render_media, cleanup, effect,
}
use motionmesh.Player.Media.Tidy.{IsTidy, run-mount-IsTidy}
use motionmesh.Player.Media.Leaks.{is_live, late_loaded-kept}
use motionmesh.Base.{Bool, Option}
use motionmesh.Player.Thumbnails.{sign_track}
use motionmesh.Player.Thumbnails.Signed.{signed_lines, sign_track-lines}
use motionmesh.Player.Thumbnails.TrackLines.{
  TrackLine, head, blank, time, image, text_of, IsTrackLine,
}
use motionmesh.Player.Urls.{begins}
use motionmesh.Base.{map}
use motionmesh.Player.Views.{
  event_of, video_answered, paused, Viewer, Posted, pause, ended, heartbeat, played, time_updated,
  finished, settled, unmounted, mount, run, change_id, answer_video_data, send_analytics_event,
}
use motionmesh.Player.Views.Unique.{
  StaysLocked, run-StaysLocked, report_and_wait, send_analytics_event-twice,
}
use motionmesh.Player.Views.Expiry.{mount-after_unique}
use motionmesh.Player.Views.Heartbeats.{play_on, AreSpaced, play_on-AreSpaced}
use motionmesh.Player.Views.Loading.{change_id-while_loading}

is_probably_jwt_iff_example :
    (is_probably_jwt "a.b-c.d" ≡ true) ↔ Segments 2 false (codes "a.b-c.d")
is_probably_jwt_iff_example = is_probably_jwt_iff "a.b-c.d"

abbrev page : Browser
page = record { has_window = true; storage_works = true }

abbrev private_page : Browser
private_page = record { has_window = true; storage_works = false }

abbrev fresh : State
fresh = record { cached = null; stored = none; fetches = 0 }

abbrev from_india : CountryResponse
from_india = record { is_ok = true; text = ok "IN\n" }

abbrev from_france : CountryResponse
from_france = record { is_ok = true; text = ok "FR" }

get_user_country_again_example :
    get_user_country private_page 9
      (ok from_france)
      (get_user_country page 5 (ok from_india) fresh).1
    ≡ (ok (str "IN"), (get_user_country page 5 (ok from_india) fresh).1)
unfolding get_user_country look_up ask_service trim
get_user_country_again_example =
    get_user_country_again page private_page 5 9 (ok from_india) (ok from_france) fresh (str "IN")
      refl refl

abbrev taken : HttpResponse
taken = record {
  status = 202;
  status_text = "Accepted";
  headers = [];
  json = ok (object (("accepted", str "yes") ∷ []));
  text = ok "";
}

abbrev host : Host
host = record { fetch = λ before r. ok taken; env = λ name. none }

abbrev start : World
start = record { sent = []; progress = [] }

abbrev played_body : Value
played_body =
    object
      (("token", str "YWNjOnZpZA==") ∷ ("event", str "play") ∷ ("currentTime", num (nat 3)) ∷ [])

abbrev player_request : PlayerRequest
player_request = record {
  search_params = ok (("kind", "event") ∷ []);
  headers = [];
  json = ok played_body;
}

handle_process_request-relayed_example :
    Concluded host "mot_live_k" start
      (handle_process_request host "mot_live_k" player_request "2026-01-01T00:00:00.000Z" start)
handle_process_request-relayed_example =
    handle_process_request-relayed host "mot_live_k" player_request "2026-01-01T00:00:00.000Z" start

-- A player of the video `v1` that has loaded it and is watching for the first time.
abbrev watching : Viewer
watching = record (unmounted "v1" true []) {
  video_data = object (("analyticsToken", str "YWNjOnZpZA==") ∷ []);
  unique_eligible = true;
  last_heartbeat_time = 0;
}

abbrev locked : Viewer
locked = record watching { unique_locked = true }

run-StaysLocked_example :
    StaysLocked locked
      (run (played 4000 ∷ time_updated 20000 ∷ finished 20001 ∷ settled 1 true 77 ∷ []) locked)
run-StaysLocked_example =
    run-StaysLocked (played 4000 ∷ time_updated 20000 ∷ finished 20001 ∷ settled 1 true 77 ∷ [])
      locked (tt, (tt, (tt, (tt, tt)))) refl

send_analytics_event-twice_example :
    (a : Posted) × (b : Posted) × (a.is_unique ≡ true)
    × (b.is_unique ≡ true)
    × ((send_analytics_event ended 9000 (send_analytics_event pause 9000 watching)).posted
        ≡ [] ++ (a ∷ b ∷ []))
send_analytics_event-twice_example =
    send_analytics_event-twice pause ended 9000 9000 watching refl refl refl (omega arith)
      (omega arith)

mount-after_unique_example :
    (mount "v1" 2592000077 true
      (report_and_wait heartbeat 15000 77 watching).storage).unique_eligible
    ≡ leb (77 + 2592000000) 2592000077
mount-after_unique_example =
    mount-after_unique heartbeat 15000 77 2592000077 watching refl refl refl refl refl

play_on-AreSpaced_example :
    (new : List Posted) × ((play_on (250 ∷ 15100 ∷ 15350 ∷ 30100 ∷ []) watching).posted ≡ [] ++ new)
    × AreSpaced 0 new
play_on-AreSpaced_example = play_on-AreSpaced (250 ∷ 15100 ∷ 15350 ∷ 30100 ∷ []) watching refl

abbrev loading : Viewer
loading = record (unmounted "v1" true []) { is_loading = true; fetched = "v1" ∷ [] }

change_id-while_loading_example :
    let s' = answer_video_data (some (str "first")) (change_id "v2" 5 loading) in
    (s'.video_tracking_id ≡ "v2")
    × (s'.video_data ≡ str "first")
    × (s'.is_loading ≡ false)
    × (s'.fetched ≡ "v1" ∷ [])
change_id-while_loading_example = change_id-while_loading "v2" 5 (str "first") loading refl refl

abbrev signature : Result (List (String × String))
signature = ok (("token", "a b") ∷ ("expires", "9") ∷ ("token_path", "/v") ∷ [])

requested-requested_example :
    requested
      (extract_token_params signature)
      (requested (extract_token_params signature) "/v/1.ts?x=1")
    ≡ requested (extract_token_params signature) "/v/1.ts?x=1"
requested-requested_example = requested-requested signature "/v/1.ts?x=1"

-- A subtitle whose text is a year, with both ends of lines.
abbrev year_lines : List (Bool × List ℕ)
year_lines =
    (true, codes "1") ∷ (false, codes "00:00:01,500 --> 00:00:02,000") ∷ (true, codes "1984") ∷ []

year_lines-IsLine : All IsLine (texts_of year_lines)
year_lines-IsLine = ground arith

srt_to_vtt-lines_example :
    (body : List ℕ) × (srt_to_vtt (join_ends year_lines) ≡ codes "WEBVTT\n\n" ++ body)
    × Dotted (join (without_numbers (texts_of year_lines))) body
srt_to_vtt-lines_example = srt_to_vtt-lines year_lines year_lines-IsLine

abbrev first_answer : Value
first_answer = object (("analyticsToken", str "YWNjOnZpZA==") ∷ [])

abbrev reporting : PlayerRequest
reporting = record {
  search_params = ok (("kind", "event") ∷ []);
  headers = [];
  json = ok (posted_body (event_of pause 4000 watching));
}

event_of-collected_example :
    (q : HttpRequest) × ((handle_process_request host "mot_live_k" reporting "now" start).1.sent
      ≡ [] ++ (q ∷ []))
    × (q.url ≡ base_url host ⧺ "/analytics/collect")
    × (q.body
        ≡ json (
            to_json (
              object (
                ("account_id", str (of_codes (codes "acc")))
                ∷ ("video_id", str (of_codes (codes "vid")))
                ∷ ("event_type", str "pause")
                ∷ ("timestamp", str "now")
                ∷ ("country", or (to_json null) (str ""))
                ∷ []))))
unfolding atob is_probably_jwt verify_api_key_signature
event_of-collected_example =
    event_of-collected host "mot_live_k" reporting "now" start pause 4000 watching "YWNjOnZpZA=="
      (codes "acc") (codes "vid") refl refl refl refl refl refl refl (omega arith) (omega arith)

run-mount-AllAccepted_example :
    All IsAccepted
      (run
        (video_answered (some first_answer) ∷ played 0 ∷ paused 4000 ∷ [])
        (mount "v1" 77 true [])).posted
run-mount-AllAccepted_example =
    run-mount-AllAccepted (video_answered (some first_answer) ∷ played 0 ∷ paused 4000 ∷ []) "v1" 77
      true []

-- The address changes after the first file has come.
abbrev changes : List MediaEvent
changes = loaded ∷ rendered "b.srt" "" ∷ failed ∷ []

run-mount-IsTidy_example : IsTidy (run_media changes (mount_media "a.srt" ""))
run-mount-IsTidy_example = run-mount-IsTidy "a.srt" "" changes (tt, (tt, (tt, tt)))

late_loaded-kept_example :
    is_live
      (run_media (rendered "b.srt" "" ∷ []) (mount_media "a.srt" "")).made
      (run_media (loaded ∷ gone ∷ []) (
        step_media late_loaded
          (run_media (rendered "b.srt" "" ∷ []) (mount_media "a.srt" "")))).live
    ≡ true
unfolding run_media mount_media step_media render_media cleanup effect
late_loaded-kept_example =
    late_loaded-kept "a.srt" "" (rendered "b.srt" "" ∷ []) (loaded ∷ gone ∷ []) 0 refl

abbrev thumbnail_lines : List TrackLine
thumbnail_lines =
    head []
    ∷ blank []
    ∷ time b'0' b'0' b'0' b'0' b'0' b'5' (codes ".000 --> 00:00:09.000")
    ∷ image [] (codes "s.jpg") (some (codes "xywh=0,0,9,9")) (codes " ")
    ∷ []

thumbnail_lines-IsTrackLine : All IsTrackLine thumbnail_lines
unfolding begins
thumbnail_lines-IsTrackLine = ground arith

thumbnail_lines-IsLine : All (λ l. IsLine (text_of l)) thumbnail_lines
thumbnail_lines-IsLine = ground arith

abbrev signed_address : List ℕ → Option (List ℕ)
signed_address address = some (address ++ codes "?token=t")

sign_track-lines_example :
    sign_track signed_address (join (map text_of thumbnail_lines))
    ≡ signed_lines signed_address thumbnail_lines
sign_track-lines_example =
    sign_track-lines signed_address thumbnail_lines thumbnail_lines-IsTrackLine
      thumbnail_lines-IsLine
