-- ===== src/Sdk/Services.antt =====
-- sdk/js/packages/sdk/src/services: the calls of the API that take one request each.
pub mod Requests
use motionmesh.Base.{
  ℕ, Bool, true, false, not, ◌&&◌, Option, none, some, String, List, [], ◌∷◌, ◌++◌, if◌then◌else◌,
  is_empty, assign, erase, ◌⧺◌,
}
use motionmesh.Js.Number.{Number, show_number, is_truthy_number, is_positive}
use motionmesh.Js.Value.{
  Value, undefined, str, num, obj, object, is_truthy, get, with_field, to_string, to_json,
  to_number,
}
use motionmesh.Js.Exception.{Exception, error, Result, ok, thrown, read}
use motionmesh.Http.{
  File, FormValue, text, file, Body, empty, json, form, HttpRequest, HttpResponse, is_ok, Host, Net,
  ◌>>=◌, ◌>>◌, pure, raise, from_result, send, read_json, prop,
}
use motionmesh.Http.Query.{Query, query_string, append_if}
use motionmesh.Sdk.Auth.{base_url, bearer, json_type}
use motionmesh.Sdk.Errors.{handle_api_error, readable, json_or_null}

abbrev pub env_value : Host → String → Value
env_value h name = elim (h.env name) [ none ↦ undefined | some s ↦ str s ]

-- The end that four of the calls share: the body is read, and is the result if the response is ok.
pub json_or_throw : HttpResponse → String → Net Value
json_or_throw r fallback = do
  v ← read_json r
  if is_ok r then pure v else raise (error (readable (get "message" v) (get "error" v) fallback))

module _ (h : Host) where
  abbrev pub initiate_request : Value → String → HttpRequest
  initiate_request body credential = record {
    method = "POST";
    url = base_url h ⧺ "/videos";
    headers = json_type ∷ bearer credential ∷ [];
    body = json (
        to_json (
          with_field "transcode_bucket_id" (env_value h "MOTIONMESH_TRANSCODE_BUCKET_ID")
            (with_field "bucket_id" (env_value h "MOTIONMESH_BUCKET_ID") body)));
  }

  unfoldable pub initiate_upload : Value → String → Net Value
  unfolding json_or_throw
  initiate_upload body credential = do
    r ← send h (initiate_request body credential)
    json_or_throw r "Failed to initiate upload"

  abbrev pub complete_request : Value → Value → Value → Value → String → Value → HttpRequest
  complete_request object_id upload_id key parts credential video_id = record {
    method = "POST";
    url = base_url h ⧺ "/upload/complete";
    headers = json_type ∷ bearer credential ∷ [];
    body = json (
        to_json (
          object (
            ("objectId", object_id)
            ∷ ("uploadId", upload_id)
            ∷ ("key", key)
            ∷ ("parts", parts)
            ∷ ("videoId", video_id)
            ∷ [])));
  }

  unfoldable pub complete_upload : Value → Value → Value → Value → String → Value → Net Value
  unfolding json_or_throw
  complete_upload object_id upload_id key parts credential video_id = do
    r ← send h (complete_request object_id upload_id key parts credential video_id)
    json_or_throw r "Failed to complete the upload upload"

  abbrev pub thumbnail_request : String → File → String → String → Number → String → HttpRequest
  thumbnail_request video_id thumbnail name content_type size credential = record {
    method = "POST";
    url = base_url h ⧺ "/upload/thumbnail";
    headers = bearer credential ∷ [];
    body = form (
        ("videoId", text video_id)
        ∷ ("thumbnail", file thumbnail)
        ∷ ("thumbnailFileName", text name)
        ∷ ("thumbnailContentType", text content_type)
        ∷ ("thumbnailSize", text (show_number size))
        ∷ []);
  }

  -- Here `data.message` throws where the body is null.
  unfoldable pub thumbnail_upload : String → File → String → String → Number → String → Net Value
  thumbnail_upload video_id thumbnail name content_type size credential = do
    r ← send h (thumbnail_request video_id thumbnail name content_type size credential)
    v ← read_json r
    if is_ok r then pure v else (do
      msg ← prop "message" v
      raise (error (readable msg (get "error" v) "Failed to upload thumbnail")))

  abbrev pub list_videos_query : Value → Query
  list_videos_query options =
      let user = get "externalUserId" options in
      let limit = get "limit" options in
      let cursor = get "cursor" options in
      append_if (is_truthy cursor) "cursor" (to_string cursor) (
        append_if (is_truthy limit) "limit" (to_string limit)
          (append_if (is_truthy user) "external_user_id" (to_string user) []))

  abbrev pub list_videos_request : Value → String → HttpRequest
  list_videos_request options credential = record {
    method = "GET";
    url = base_url h ⧺ ("/videos?" ⧺ query_string (list_videos_query options));
    headers = bearer credential ∷ [];
    body = empty;
  }

  unfoldable pub list_videos : Value → String → Net Value
  unfolding json_or_throw
  list_videos options credential = do
    r ← send h (list_videos_request options credential)
    json_or_throw r "Failed to list videos"

  abbrev pub playback_request : Value → String → HttpRequest
  playback_request video_id credential = record {
    method = "GET";
    url = base_url h ⧺ ("/videos/" ⧺ (to_string video_id ⧺ "/playback"));
    headers = bearer credential ∷ [];
    body = empty;
  }

  unfoldable pub get_playback_info : Value → String → Net Value
  unfolding json_or_throw
  get_playback_info video_id credential = do
    r ← send h (playback_request video_id credential)
    json_or_throw r "Failed to get playback info"

  -- The API key goes out as `x-api-key`, a bearer token as `Authorization`; an empty one not at all.
  abbrev pub credential_headers : String → Bool → List (String × String)
  credential_headers credential is_bearer =
      let api_key = if is_bearer then "" else credential in
      let token = if is_bearer then credential else "" in
      (if is_empty api_key then [] else ("x-api-key", api_key) ∷ [])
      ++ (if is_empty token then [] else bearer token ∷ [])

  abbrev pub create_job_request : Value → String → Bool → HttpRequest
  create_job_request video_id credential is_bearer = record {
    method = "POST";
    url = base_url h ⧺ ("/videos/" ⧺ (to_string video_id ⧺ "/transcode"));
    headers = json_type ∷ credential_headers credential is_bearer;
    body = empty;
  }

  unfoldable pub create_job : Value → String → Bool → Net Value
  create_job video_id credential is_bearer = do
    r ← send h (create_job_request video_id credential is_bearer)
    if is_ok r then read_json r else handle_api_error r "createJob"

  -- `limit && limit > 0`; `>` compares as numbers.
  abbrev pub list_jobs_query : Value → String
  list_jobs_query limit =
      if is_truthy limit && is_positive (to_number limit)
      then "?" ⧺ query_string (("limit", to_string limit) ∷ [])
      else ""

  abbrev pub list_jobs_request : String → Value → HttpRequest
  list_jobs_request credential limit = record {
    method = "GET";
    url = base_url h ⧺ ("/jobs" ⧺ list_jobs_query limit);
    headers = bearer credential ∷ [];
    body = empty;
  }

  -- `data?.error || fallback` in `new Error`; a body that cannot be read counts as `{}`.
  list_jobs_error : HttpResponse → Exception
  list_jobs_error r =
      let e = get "error" (json_or_null r) in
      error (if is_truthy e then to_string e else "Failed to list jobs")

  unfoldable pub list_jobs : String → Value → Net Value
  unfolding list_jobs_error
  list_jobs credential limit = do
    r ← send h (list_jobs_request credential limit)
    if is_ok r then read_json r else raise (list_jobs_error r)
