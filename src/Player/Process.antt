-- ===== src/Player/Process.antt =====
-- sdk/js/packages/player/src/services/processRequest.ts: the handler that an application mounts
-- for the player. What `new URL(request.url).searchParams` gives stands for the address.
pub mod Requests
pub mod Events
use motionmesh.Base.{
  ℕ, Bool, true, false, not, ◌&&◌, ◌||◌, Option, none, some, String, List, [], ◌∷◌, ◌++◌,
  if◌then◌else◌, is_empty, or_else, ◌⧺◌, lookup, str_eq, ◌==◌, ltb, leb,
}
use motionmesh.Js.Value.{
  Value, undefined, null, bool, num, str, arr, obj, object, is_truthy, get, to_string, to_json, or,
  or_nullish,
}
use motionmesh.Js.Exception.{Exception, error, message, Result, ok, thrown, read}
use motionmesh.Js.Base64.{atob, of_codes}
use motionmesh.Http.{
  Body, empty, json, Headers, HttpRequest, HttpResponse, is_ok, Reply, reply, Host, Net, World,
  ◌>>=◌, ◌>>◌, pure, raise, from_result, catch, send, per_option, env_or, header_or_empty,
}
use motionmesh.Player.Keys.{is_probably_jwt, verify_api_key_signature}

-- `getEnvConfig().baseUrl` of the player.
pub base_url : Host → String
base_url h = env_or h "MOTIONMESH_BASE_URL" "http://localhost:8000/api/v1"

pub record PlayerRequest : Type 0 where
  pub search_params : Result (List (String × String))
  pub headers : Headers
  pub json : Result Value

abbrev pub error_body : String → Value
error_body what = object (("error", str what) ∷ [])

abbrev pub auth_headers : String → Headers
auth_headers api_key = ("Authorization", "Bearer " ⧺ api_key) ∷ []

-- `.json().catch(() => null)`
abbrev pub or_null : Result Value → Value
or_null (ok v) = v
or_null (thrown e) = null

-- The statuses for which `Response.json` throws: those outside the range of a `Response`, and those
-- with which it must not have a body.
abbrev pub is_refused_status : ℕ → Bool
is_refused_status status =
    ltb status 200 || leb 600 status || status == 204 || status == 205 || status == 304

abbrev refusal : ℕ → String
refusal status =
    if ltb status 200 || leb 600 status
    then "init[\"status\"] must be in the range of 200 to 599, inclusive."
    else "Response with null body status cannot have body"

-- `Response.json(data ?? fallback, { status: res.status })`: the API's status is passed on.
unfoldable pub pass_on : HttpResponse → Value → Net Reply
pass_on r fallback =
    if is_refused_status r.status
    then raise (error (refusal r.status))
    else pure (reply r.status (or_nullish (or_null r.json) fallback))

-- The reply of the handler's `catch`.
unfoldable pub failure_reply : Exception → Reply
failure_reply e = reply 500 (error_body (or_else (message e) "An unexpected error occurred"))

-- `!payload || typeof payload !== "object"`; what is left is an object or an array.
abbrev pub is_object : Value → Bool
is_object (arr vs) = true
is_object (obj ms) = true
is_object _ = false

-- `typeof payload?.currentTime !== "number"`
abbrev pub is_number : Value → Bool
is_number (num n) = true
is_number _ = false

-- What `decodedToken.split(":")` begins with: the text up to the first colon, and what is between
-- it and the next one, if there is one.
abbrev pub until_colon : List ℕ → List ℕ
until_colon [] = []
until_colon (c ∷ s) = let rest = until_colon s in if c == b':' then [] else c ∷ rest

abbrev pub after_colon : List ℕ → Option (List ℕ)
after_colon [] = none
after_colon (c ∷ s) = let rest = after_colon s in if c == b':' then some s else rest

unfoldable pub account_id : List ℕ → Value
account_id decoded = str (of_codes (until_colon decoded))

-- The second part of the split text; it is undefined where there is none.
abbrev pub second_part : Option (List ℕ) → Value
second_part none = undefined
second_part (some rest) = str (of_codes (until_colon rest))

unfoldable pub video_id : List ℕ → Value
video_id decoded = second_part (after_colon decoded)

abbrev pub settings_headers : String → Headers
settings_headers api_key = ("Accept", "application/json") ∷ auth_headers api_key

abbrev pub event_body : List ℕ → Value → String → Value
event_body decoded payload timestamp = object (
    ("account_id", account_id decoded)
    ∷ ("video_id", video_id decoded)
    ∷ ("event_type", get "event" payload)
    ∷ ("timestamp", str timestamp)
    ∷ ("country", or (get "geo" payload) (str ""))
    ∷ [])

abbrev pub is_event : Value → Bool
is_event payload =
    is_truthy (get "token" payload)
    && is_truthy (get "event" payload)
    && is_number (get "currentTime" payload)

abbrev pub param : String → List (String × String) → String
param name params = elim (lookup name params) [ none ↦ "" | some s ↦ s ]

-- `searchParams.get("action") ?? "get"`
abbrev pub action_of : List (String × String) → String
action_of params = elim (lookup "action" params) [ none ↦ "get" | some s ↦ s ]

module _ (h : Host) (api_key : String) where
  abbrev pub update_request : Value → HttpRequest
  update_request payload = record {
    method = "POST";
    url = base_url h ⧺ "/player/settings";
    headers = ("Content-Type", "application/json") ∷ settings_headers api_key;
    body = json (to_json payload);
  }

  abbrev pub settings_request : HttpRequest
  settings_request = record {
    method = "GET";
    url = base_url h ⧺ "/player/settings";
    headers = settings_headers api_key;
    body = empty;
  }

  -- `kind === "settings"`
  unfoldable pub process_settings : String → Result Value → Net Reply
  process_settings action body =
      if str_eq action "update"
      then (if is_object (or_null body)
          then (do
            r ← send h (update_request (or_null body))
            pass_on r (error_body "Upstream error"))
          else pure (reply 400 (error_body "Invalid settings payload")))
      else (do r ← send h settings_request; pass_on r (error_body "Upstream error"))

  abbrev pub event_request : Headers → List ℕ → Value → String → HttpRequest
  event_request headers decoded payload timestamp = record {
    method = "POST";
    url = base_url h ⧺ "/analytics/collect";
    headers =
        ("Content-Type", "application/json")
        ∷ ("Accept", "application/json")
        ∷ (auth_headers api_key
            ++ (("user-agent", header_or_empty "user-agent" headers)
                ∷ ("x-forwarded-for", header_or_empty "x-forwarded-for" headers)
                ∷ []));
    body = json (to_json (event_body decoded payload timestamp));
  }

  abbrev pub send_event : Headers → Value → String → List ℕ → Net Reply
  send_event headers payload timestamp decoded = do
    r ← send h (event_request headers decoded payload timestamp)
    pass_on r (object (("success", bool (is_ok r)) ∷ []))

  -- `kind === "event"`, at the time that `new Date().toISOString()` gives.
  unfoldable pub process_event : Headers → Result Value → String → Net Reply
  process_event headers body timestamp =
      let payload = or_null body in
      if is_event payload
      then per_option (atob (to_string (get "token" payload)))
          (pure (reply 400 (error_body "invalid token"))) (send_event headers payload timestamp)
      else pure (reply 400 (error_body "token, event and currentTime are required"))

  abbrev pub playback_request : String → HttpRequest
  playback_request video_tracking_id = record {
    method = "GET";
    url = base_url h ⧺ ("/videos/" ⧺ (video_tracking_id ⧺ "/playback"));
    headers = auth_headers api_key;
    body = empty;
  }

  unfoldable pub process_playback : String → Net Reply
  process_playback video_tracking_id =
      if is_empty video_tracking_id
      then pure (reply 400 (error_body "videoTrackingId is required"))
      else (do
        r ← send h (playback_request video_tracking_id)
        pass_on r (error_body "Upstream error"))

  unfoldable pub process_params : PlayerRequest → String → List (String × String) → Net Reply
  process_params r timestamp params =
      if str_eq (param "kind" params) "settings"
      then process_settings (action_of params) r.json
      else if str_eq (param "kind" params) "event"
      then process_event r.headers r.json timestamp
      else process_playback (param "videoTrackingId" params)

  -- The `try` of the handler.
  unfoldable pub process : PlayerRequest → String → Net Reply
  process r timestamp =
      if is_empty api_key
      then pure (reply 401 (error_body "Motionmesh apiKey is required"))
      else if is_probably_jwt api_key || verify_api_key_signature api_key
      then (do params ← from_result r.search_params; process_params r timestamp params)
      else pure (reply 401 (error_body "Invalid API Key"))

  -- `handleProcessRequest`
  unfoldable pub handle_process_request : PlayerRequest → String → Net Reply
  handle_process_request r timestamp = catch (process r timestamp) (λ e. pure (failure_reply e))
