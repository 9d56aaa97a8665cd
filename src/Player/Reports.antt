-- ===== src/Player/Reports.antt =====
-- sdk/js/packages/player/src/react/index.tsx and services/processRequest.ts together: the body
-- that the component sends for an event, and what the handler makes of it. A position is sent in
-- seconds; as fractions are no numbers here, it stands as its whole seconds.
pub mod Accepted
use motionmesh.Base.{
  ℕ, ◌+◌, ◌/◌, ◌≡◌, ◌∙◌, refl, ap, Bool, true, false, ◌||◌, Option, none, some, String, List, [],
  ◌∷◌, ◌++◌, arith, is_empty, ◌⧺◌, Bool-cases, inl, inr, if◌then◌else◌, lookup, leb,
}
use motionmesh.Base.Lists.{All, All-append}
use motionmesh.Js.Number.{Number, nat, whole, nan, text_to_number}
use motionmesh.Js.Value.{
  Value, undefined, null, bool, num, str, arr, obj, Members, bare, member, object, get, or,
  is_truthy, to_json, members_to_json, to_string,
}
use motionmesh.Js.Base64.{atob, of_codes}
use motionmesh.Js.Exception.{Exception, Result, ok, thrown}
use motionmesh.Http.{Host, World, HttpRequest, Reply, json, pure, catch_result}
use motionmesh.Player.Keys.{is_probably_jwt, verify_api_key_signature}
use motionmesh.Player.Process.{
  PlayerRequest, base_url, is_event, handle_process_request, process, process_params, process_event,
  failure_reply,
}
use motionmesh.Player.Process.Events.{HasNoColon, process_event-identifies}
use motionmesh.Player.Views.{
  Kind, play, pause, heartbeat, seek, ended, Posted, Viewer, Event, event_of, geo_of,
  send_analytics_event, step, run, mount, Pending, judge_lock, read_lock, init_view_lock,
  run_effects, fetch_video_data, change_id, settle_one, conclude_event, settle, take_out, unmounted,
  lock_key, answer_video_data, on_play, on_time_update, id_changed, video_answered, country_found,
  played, paused, finished, seeked, time_updated, settled,
}

abbrev pub kind_name : Kind → String
kind_name play = "play"
kind_name pause = "pause"
kind_name heartbeat = "heartbeat"
kind_name seek = "seek"
kind_name ended = "ended"

-- The body of the request, as the handler reads it.
unfoldable pub posted_body : Posted → Value
posted_body p = to_json (
    object (
      ("event", str (kind_name p.kind))
      ∷ ("currentTime", num (nat (p.current_time / 1000)))
      ∷ ("token", p.token)
      ∷ ("geo", p.geo)
      ∷ ("isUnique", bool p.is_unique)
      ∷ []))

members_to_json-truthy :
    (k : String) (v : Value) (fs : Members)
    → is_truthy v ≡ true
    → members_to_json (member k v fs) ≡ member k (to_json v) (members_to_json fs)
unfolding to_json
members_to_json-truthy k undefined fs t = absurd cc
members_to_json-truthy k null fs t = refl
members_to_json-truthy k (bool b) fs t = refl
members_to_json-truthy k (num n) fs t = refl
members_to_json-truthy k (str s) fs t = refl
members_to_json-truthy k (arr vs) fs t = refl
members_to_json-truthy k (obj ms) fs t = refl

is_truthy-to_json : (v : Value) → is_truthy v ≡ true → is_truthy (to_json v) ≡ true
unfolding to_json
is_truthy-to_json undefined t = t
is_truthy-to_json null t = t
is_truthy-to_json (bool b) t = t
is_truthy-to_json (num (whole n)) t = t
is_truthy-to_json (num nan) t = t
is_truthy-to_json (str s) t = t
is_truthy-to_json (arr vs) t = t
is_truthy-to_json (obj ms) t = t

is_truthy-kind_name : (k : Kind) → is_truthy (str (kind_name k)) ≡ true
is_truthy-kind_name play = refl
is_truthy-kind_name pause = refl
is_truthy-kind_name heartbeat = refl
is_truthy-kind_name seek = refl
is_truthy-kind_name ended = refl

-- An event whose body the handler takes for one.
unfoldable pub IsAccepted : Posted → Type 0
IsAccepted p = is_event (posted_body p) ≡ true

get-posted_body :
    (p : Posted)
    → is_truthy p.token ≡ true
    → (get "event" (posted_body p) ≡ str (kind_name p.kind))
      × (get "currentTime" (posted_body p) ≡ num (nat (p.current_time / 1000)))
      × (get "token" (posted_body p) ≡ to_json p.token)
unfolding posted_body to_json
get-posted_body p t =
    rw
      (members_to_json-truthy "token" p.token
        (member "geo" p.geo (member "isUnique" (bool p.is_unique) bare)) t)
      (refl, refl, refl)

pub posted_body-IsAccepted : (p : Posted) → is_truthy p.token ≡ true → IsAccepted p
unfolding IsAccepted
posted_body-IsAccepted p t =
    let (e, c, k) = get-posted_body p t in
    rw (e, c, k, is_truthy-kind_name p.kind, is_truthy-to_json p.token t) refl

is_falsy-to_json : (v : Value) → is_truthy v ≡ false → is_truthy (to_json v) ≡ false
unfolding to_json
is_falsy-to_json undefined f = refl
is_falsy-to_json null f = refl
is_falsy-to_json (bool b) f = f
is_falsy-to_json (num (whole n)) f = f
is_falsy-to_json (num nan) f = refl
is_falsy-to_json (str s) f = f
is_falsy-to_json (arr vs) f = absurd cc
is_falsy-to_json (obj ms) f = absurd cc

or_falsy : (v : Value) → is_truthy v ≡ false → str "" ≡ or v (str "")
or_falsy v f = rw f refl

get_geo-posted_body :
    (p : Posted) (country : Value)
    → is_truthy p.token ≡ true
    → p.geo ≡ geo_of country
    → or (get "geo" (posted_body p)) (str "") ≡ or (to_json country) (str "")
unfolding posted_body to_json
get_geo-posted_body p country t g = elim (Bool-cases (is_truthy country)) [
  | inl c ↦
      rw
        (
          members_to_json-truthy "token" p.token
              (member "geo" p.geo (member "isUnique" (bool p.is_unique) bare)) t,
          g,
          c,
          members_to_json-truthy "geo" country (member "isUnique" (bool p.is_unique) bare) c,
        )
        refl
  | inr c ↦
      rw
        (
          members_to_json-truthy "token" p.token
              (member "geo" p.geo (member "isUnique" (bool p.is_unique) bare)) t,
          g,
          c,
        )
        (or_falsy (to_json country) (is_falsy-to_json country c))
]

-- The parameters of the address that events are sent to.
abbrev pub event_params : List (String × String)
event_params = ("kind", "event") ∷ []

caught-sent :
    (x : Result Reply × World) (f : Exception → Reply) → (catch_result x (λ e. pure (f e))).1 ≡ x.1
caught-sent (ok r, w) f = refl
caught-sent (thrown e, w) f = refl

-- The handler makes of an event what its branch for events does.
handle_process_request-event :
    (h : Host) (api_key : String) (r : PlayerRequest) (payload : Value) (timestamp : String)
    (w : World)
    → is_empty api_key ≡ false
    → is_probably_jwt api_key || verify_api_key_signature api_key ≡ true
    → r.search_params ≡ ok event_params
    → r.json ≡ ok payload
    → (handle_process_request h api_key r timestamp w).1
      ≡ (process_event h api_key r.headers (ok payload) timestamp w).1
unfolding handle_process_request process process_params
handle_process_request-event h api_key r payload timestamp w e k p j =
    rw (e, k, p, j)
      (caught-sent (process_event h api_key r.headers (ok payload) timestamp w) failure_reply)

-- Where the token of the playback is a text in
-- base 64 of an account and a video joined by a colon, neither of which has a colon, and the
-- handler has a key that looks valid, the request of an event makes the handler send one request
-- to the API, for the address that collects events, whose body names that kind of event, that
-- account, that video and the country that the component had found, or none.
pub event_of-collected :
    (h : Host) (api_key : String) (r : PlayerRequest) (timestamp : String) (w : World) (kind : Kind)
    (t : ℕ) (s : Viewer) (token : String) (account video : List ℕ)
    → is_empty api_key ≡ false
    → is_probably_jwt api_key || verify_api_key_signature api_key ≡ true
    → r.search_params ≡ ok event_params
    → r.json ≡ ok (posted_body (event_of kind t s))
    → get "analyticsToken" s.video_data ≡ str token
    → is_empty token ≡ false
    → atob token ≡ some (account ++ (b':' ∷ video))
    → HasNoColon account
    → HasNoColon video
    → (q : HttpRequest) × ((handle_process_request h api_key r timestamp w).1.sent
        ≡ w.sent ++ (q ∷ []))
      × (q.url ≡ base_url h ⧺ "/analytics/collect")
      × (q.body
          ≡ json (
              to_json (
                object (
                  ("account_id", str (of_codes account))
                  ∷ ("video_id", str (of_codes video))
                  ∷ ("event_type", str (kind_name kind))
                  ∷ ("timestamp", str timestamp)
                  ∷ ("country", or (to_json s.user_country) (str ""))
                  ∷ []))))
event_of-collected h api_key r timestamp w kind t s token account video e k p j a n d ca cv =
    let post = event_of kind t s in
    let payload = posted_body post in
    let truthy : is_truthy post.token ≡ true = rw (a, n) refl in
    let (event, _, sent) = get-posted_body post truthy in
    let decoded : atob (to_string (get "token" payload)) ≡ some (account ++ (b':' ∷ video)) =
      rw (sent, a) (unfold to_json in d) in
    let (q, is_sent, url, body) =
      process_event-identifies h api_key r.headers payload timestamp w account video
        (unfold IsAccepted in posted_body-IsAccepted post truthy) decoded ca cv in
    (
      q,
      rw (handle_process_request-event h api_key r payload timestamp w e k p j) is_sent,
      url,
      rw (← event, ← get_geo-posted_body post s.user_country truthy refl) body,
    )
