-- ===== src/Sdk/Client.antt =====
-- sdk/js/packages/sdk/src/client/index.ts: the class MotionMeshClient.
pub mod Numbering
pub mod Requests
pub mod Delivery
use motionmesh.Base.{
  ℕ, zero, suc, ◌+◌, ◌-◌, ◌*◌, ◌/◌, Bool, true, false, not, Option, none, some, String, List, [],
  ◌∷◌, ◌++◌, if◌then◌else◌, is_empty, or_else, ◌⧺◌, length, ◌==◌,
}
use motionmesh.Js.Number.{Number, nat, show_number}
use motionmesh.Js.Value.{
  Value, undefined, null, str, num, arr, obj, object, to_values, is_truthy, get, to_string, to_json,
}
use motionmesh.Js.Exception.{Exception, error, Result, ok, thrown, read}
use motionmesh.Http.{
  File, Body, empty, json, form, binary, HttpRequest, HttpResponse, is_ok, Host, Net, ◌>>=◌, ◌>>◌,
  pure, raise, send, read_json, prop, env_or, Headers,
}
use motionmesh.Http.Query.{Query, query_string, append_if}
use motionmesh.Sdk.Auth.{bearer, json_type}
use motionmesh.Sdk.Errors.{handle_api_error}
use motionmesh.Sdk.Uploads.{Media, file, buffer, content, default_part_size, Uploaded, upload_file}

pub record FileMeta : Type 0 where
  pub filename : String
  pub content_type : String
  pub size : ℕ

unfoldable pub extract_file_meta : Media → FileMeta
extract_file_meta (file f) = record {
  filename = f.name;
  content_type = or_else f.content_type "application/octet-stream";
  size = length f.bytes;
}
extract_file_meta (buffer bs) = record {
  filename = "upload";
  content_type = "application/octet-stream";
  size = length bs;
}

pub record Client : Type 0 where
  pub api_key : String
  pub base_url : String

-- The constructor; no `baseURL` and an empty one count alike.
unfoldable pub new_client : Host → String → String → Net Client
new_client h api_key base_url =
    if is_empty api_key
    then raise (error "apiKey is required")
    else pure (record {
      api_key = api_key;
      base_url =
          or_else base_url (
            env_or h "MOTIONMESH_BASE_URL" (env_or h "BASE_URL" "https://api.motionmesh.co.in/v1"));
    })

-- `options.body instanceof FormData`
abbrev pub is_form : Body → Bool
is_form (form fs) = true
is_form _ = false

abbrev pub client_headers : Client → Body → Headers
client_headers c body = bearer c.api_key ∷ (if is_form body then [] else json_type ∷ [])

abbrev pub client_request : Client → String → String → Body → HttpRequest
client_request c path method body = record {
  method = method;
  url = c.base_url ⧺ path;
  headers = client_headers c body;
  body = body;
}

abbrev pub with_query : String → Query → String
with_query path [] = path
with_query path (p ∷ q) = path ⧺ ("?" ⧺ query_string (p ∷ q))

abbrev pub videos_query : Value → Query
videos_query options =
    let limit = get "limit" options in
    let cursor = get "cursor" options in
    let user = get "external_user_id" options in
    append_if (is_truthy user) "external_user_id" (to_string user) (
      append_if (is_truthy cursor) "cursor" (to_string cursor)
        (append_if (is_truthy limit) "limit" (to_string limit) []))

-- `Math.ceil(size / partSize)`
unfoldable pub total_parts : ℕ → ℕ
total_parts size = (size + (default_part_size - 1)) / default_part_size

abbrev pub initiate_body : FileMeta → Value → Body
initiate_body meta options = json (
    to_json (
      object (
        ("filename", str meta.filename)
        ∷ ("size_bytes", num (nat meta.size))
        ∷ ("bucket_id", get "bucketId" options)
        ∷ ("transcode_bucket_id", get "transcodeBucketId" options)
        ∷ ("external_user_id", get "externalUserId" options)
        ∷ [])))

abbrev pub parts_path : Value → Value → ℕ → String
parts_path id upload_id count =
    "/videos/multipart/"
    ⧺ (to_string id
        ⧺ ("/parts?upload_id=" ⧺ (to_string upload_id ⧺ ("&count=" ⧺ show_number (nat count)))))

abbrev pub upload_data : Value → Value → Value → Value → Value
upload_data id key upload_id parts = object (
    ("objectId", id)
    ∷ ("key", key)
    ∷ ("uploadId", upload_id)
    ∷ ("parts", parts)
    ∷ ("partSize", num (nat default_part_size))
    ∷ [])

abbrev pub complete_path : Value → String
complete_path id = "/videos/multipart/" ⧺ (to_string id ⧺ "/complete")

abbrev pub complete_body : Uploaded → Body
complete_body u = json (
    to_json
      (object (("upload_id", u.upload_id) ∷ ("parts", arr (to_values u.completed_parts)) ∷ [])))

module _ (h : Host) (c : Client) where
  -- `request`; the class's own calls give no headers.
  unfoldable pub request : String → String → Body → Net Value
  request path method body = do
    r ← send h (client_request c path method body)
    if is_ok r
        then (if r.status == 204 then pure null else read_json r)
        else handle_api_error r "api_request"

  -- `videos.list`
  unfoldable pub videos_list : Value → Net Value
  videos_list options = do
    data_ ← request (with_query "/videos" (videos_query options)) "GET" empty
    prop "videos" data_

  -- `videos.get`
  unfoldable pub videos_get : String → Net Value
  videos_get video_id = request ("/videos/" ⧺ video_id) "GET" empty

  -- `videos.playback`
  unfoldable pub videos_playback : String → Net Value
  videos_playback video_id = request ("/videos/" ⧺ (video_id ⧺ "/playback")) "GET" empty

  -- `mediaConverter.createJob`
  unfoldable pub media_converter_create_job : String → Net Value
  media_converter_create_job video_id =
      request ("/videos/" ⧺ (video_id ⧺ "/transcode")) "POST" empty

  -- `mediaConverter.listJobs`
  unfoldable pub media_converter_list_jobs : Value → Net Value
  media_converter_list_jobs options =
      let limit = get "limit" options in
      request (with_query "/jobs" (append_if (is_truthy limit) "limit" (to_string limit) [])) "GET"
        empty

  -- `buckets.list`
  unfoldable pub buckets_list : Net Value
  buckets_list = request "/buckets" "GET" empty

  -- `uploadVideo` once the video is known to be there; the result is the `key`. After the first
  -- read of `initialResponse.video.id` that response is known to be an object.
  unfoldable pub upload_media : Media → Value → Net Value
  upload_media media options = do
    let meta = extract_file_meta media
    initial ← request "/videos/multipart" "POST" (initiate_body meta options)
    video ← prop "video" initial
    id ← prop "id" video
    let upload_id = get "upload_id" initial
    listed ← request (parts_path id upload_id (total_parts meta.size)) "GET" empty
    parts ← prop "parts" listed
    u ← upload_file h media (upload_data id (get "object_key" initial) upload_id parts)
    completed ← request (complete_path u.object_id) "POST" (complete_body u)
    pure u.key

  -- `uploadVideo(options)`: `options.video` apart from the other options.
  unfoldable pub upload_video : Option Media → Value → Net Value
  upload_video none options = raise (error "Video file is required")
  upload_video (some media) options = upload_media media options
