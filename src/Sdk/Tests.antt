-- ===== src/Sdk/Tests.antt =====
-- The SDK at concrete inputs.
use motionmesh.Base.{
  ℕ, ◌≡◌, refl, List, [], ◌∷◌, arith, String, none, some, ◌*◌, ◌+◌, ◌≤◌, ◌<◌, ◌⊎◌,
}
use motionmesh.Js.Number.{nat}
use motionmesh.Js.Value.{get, Value, undefined, null, str, num, arr, object, to_values}
use mathlib.Core.Path.{subst}
use motionmesh.Base.Lists.{All}
use motionmesh.Base.{ap, ◌∙◌}
use motionmesh.Js.Exception.{Result, error, ok, thrown}
use motionmesh.Http.{File, HttpResponse, IncomingRequest, World, Host, send}
use motionmesh.Http.Laws.{Grows, Sends}
use motionmesh.Sdk.Auth.{verify_api_key_signature}
use motionmesh.Sdk.Services.Requests.{IsAuthorized}
use motionmesh.Sdk.Uploads.{file, buffer, default_part_size, upload_file}
use motionmesh.Sdk.Uploads.Coverage.{TakesParts, Holds, upload_file-Holds}
use motionmesh.Sdk.Uploads.Failures.{IsEmptyPut, upload_file-buffer_IsEmptyPut}
use motionmesh.Sdk.Client.Numbering.{
  route_part, IsRoutePart, NumbersAsRoute, upload_video-route_empty,
}
use motionmesh.Sdk.Uploads.Requests.{parts_in}
use motionmesh.Sdk.Client.{Client, total_parts, upload_video}
use motionmesh.Sdk.Client.Requests.{IsOwn}
use motionmesh.Sdk.Client.Delivery.{total_parts_bounds}
use motionmesh.Sdk.Process.{
  failed, handle_process_request, process_with_key, process_with_token, process_body, process_json,
  process_typed, process_action, process_form, failure_reply,
}
use motionmesh.Sdk.Process.Requests.{
  KeepsKey, handle_process_request-KeepsKey, handle_process_request-IsAuthorized,
}
use motionmesh.Sdk.Process.Replies.{Concluded, handle_process_request-Concluded}

abbrev start : World
start = record { sent = []; progress = [] }

-- A store that takes everything, under one tag.
abbrev taken : HttpResponse
taken = record {
  status = 200;
  status_text = "OK";
  headers = ("etag", "e1") ∷ [];
  json = ok (object (("id", str "j1") ∷ []));
  text = ok "";
}

abbrev host : Host
host = record { fetch = λ before r. ok taken; env = λ name. none }

host-TakesParts : TakesParts host
host-TakesParts before r put = record {
  response = taken;
  answered = refl;
  success = refl;
  etag = "e1";
  tagged = refl;
  not_empty = refl;
}

abbrev five : File
five = record { name = "a.mp4"; content_type = "video/mp4"; bytes = 1 ∷ 2 ∷ 3 ∷ 4 ∷ 5 ∷ [] }

abbrev numbered_part : ℕ → Value
numbered_part n = object (("partNumber", num (nat n)) ∷ ("url", str "https://store/p") ∷ [])

abbrev three_parts : List Value
three_parts = numbered_part 1 ∷ numbered_part 2 ∷ numbered_part 3 ∷ []

abbrev five_upload : Value
five_upload = object (
    ("objectId", str "v1")
    ∷ ("key", str "k1")
    ∷ ("uploadId", str "u1")
    ∷ ("parts", arr (to_values three_parts))
    ∷ ("partSize", num (nat 2))
    ∷ [])

upload_file-Holds_example :
    Holds five five_upload three_parts start (upload_file host (file five) five_upload start)
upload_file-Holds_example =
    upload_file-Holds host five 2 five_upload (to_values three_parts) start host-TakesParts refl
      refl (refl, (refl, (refl, tt))) (omega arith)

abbrev ask : String → Value → IncomingRequest
ask type rest = record {
  url = "https://app/api/motionmesh";
  headers = ("content-type", "application/json") ∷ [];
  json = ok (object (("type", str type) ∷ ("videoId", rest) ∷ []));
  form = thrown (error "no form");
}

sdk_process : Unit {0}
unfolding handle_process_request process_with_key process_with_token process_body process_json
    process_typed process_action process_form failure_reply verify_api_key_signature send
sdk_process = tt

-- A request with no video, one for an unknown type, and one with a key of no known form.
refusals :
    (handle_process_request host (ask "getPlaybackInfo" undefined) "mot_test_1" none start
      ≡ (ok (failed 400 "videoId is required"), start))
    × (handle_process_request host (ask "other" null) "mot_test_1" none start
        ≡ (ok (failed 400 "Invalid type"), start))
    × (handle_process_request host (ask "listJobs" null) "sk_1" none start
        ≡ (ok (failed 401 "Your API key is invalid!"), start))
unfolding sdk_process
refusals = (refl, refl, refl)

handle_process_request-KeepsKey_example :
    Sends
      (KeepsKey host (ask "listJobs" null) "mot_live_1")
      (handle_process_request host (ask "listJobs" null) "mot_live_1" none)
handle_process_request-KeepsKey_example =
    handle_process_request-KeepsKey host (ask "listJobs" null) "mot_live_1"

handle_process_request-IsAuthorized_example :
    Sends
      (IsAuthorized host "t1")
      (handle_process_request host (ask "createTranscodeJob" (str "v1")) "" (some (ok "t1")))
handle_process_request-IsAuthorized_example =
    handle_process_request-IsAuthorized host (ask "createTranscodeJob" (str "v1")) "" "t1" refl

handle_process_request-Concluded_example :
    Concluded start (handle_process_request host (ask "listJobs" null) "mot_live_1" none start)
handle_process_request-Concluded_example =
    handle_process_request-Concluded host (ask "listJobs" null) "mot_live_1" none start

-- One answer that serves each step of an upload of one part.
abbrev served : HttpResponse
served = record {
  status = 200;
  status_text = "OK";
  headers = ("etag", "e1") ∷ [];
  json = ok (
      object (
        ("video", object (("id", str "v1") ∷ []))
        ∷ ("object_key", str "k1")
        ∷ ("upload_id", str "u1")
        ∷ ("parts", arr (to_values (numbered_part 1 ∷ [])))
        ∷ []));
  text = ok "";
}

abbrev api : Host
api = record { fetch = λ before r. ok served; env = λ name. none }

abbrev client : Client
client = record { api_key = "mot_live_1"; base_url = "https://api" }

abbrev served_value : Value
served_value = object (
    ("video", object (("id", str "v1") ∷ []))
    ∷ ("object_key", str "k1")
    ∷ ("upload_id", str "u1")
    ∷ ("parts", arr (to_values (numbered_part 1 ∷ [])))
    ∷ [])

total_parts_bounds_example :
    (5242881 ≤ total_parts 5242881 * default_part_size)
    × (total_parts 5242881 * default_part_size < 5242881 + default_part_size)
total_parts_bounds_example = total_parts_bounds 5242881

-- An API that gives parts as the route of the server does.
abbrev routed : HttpResponse
routed = record served {
  json = ok (
      object (
        ("video", object (("id", str "v1") ∷ []))
        ∷ ("object_key", str "k1")
        ∷ ("upload_id", str "u1")
        ∷ ("parts", arr (to_values (route_part 1 "https://store/p" ∷ [])))
        ∷ []));
}

abbrev route_api : Host
route_api = record { fetch = λ before r. ok routed; env = λ name. none }

abbrev value_of : Result Value → Value
value_of (ok v) = v
value_of (thrown e) = null

abbrev json_of : Result HttpResponse → Value
json_of (ok r) = value_of r.json
json_of (thrown e) = null

route_api-NumbersAsRoute : NumbersAsRoute route_api
route_api-NumbersAsRoute before q r v a j =
    subst (λ x. All IsRoutePart (parts_in (get "parts" x))) (ap json_of a ∙ ap value_of j)
      ((1, "https://store/p", refl), tt)

upload_video-route_empty_example :
    Grows
      (λ r. IsOwn client r ⊎ IsEmptyPut r)
      start
      (upload_video route_api client (some (file five)) (object []) start).1
upload_video-route_empty_example =
    upload_video-route_empty route_api client (file five) (object []) start route_api-NumbersAsRoute

upload_file-buffer_IsEmptyPut_example :
    Sends IsEmptyPut (upload_file host (buffer (1 ∷ 2 ∷ [])) five_upload)
upload_file-buffer_IsEmptyPut_example = upload_file-buffer_IsEmptyPut host (1 ∷ 2 ∷ []) five_upload
