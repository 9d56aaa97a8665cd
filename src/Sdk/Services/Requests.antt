-- ===== src/Sdk/Services/Requests.antt =====
-- Which requests the calls of the API send.
use motionmesh.Base.{
  ◌≡◌, refl, Bool, true, false, ◌∷◌, String, some, is_empty, ◌⧺◌, ◌⊎◌, inl, inr, lookup,
}
use motionmesh.Js.Number.{Number}
use motionmesh.Js.Value.{Value}
use motionmesh.Http.{send, File, HttpRequest, HttpResponse, Host}
use motionmesh.Http.Laws.{Sends, Sends-send, Sends-bind, sends}
use motionmesh.Sdk.Auth.{base_url}
use motionmesh.Sdk.Services.{
  json_or_throw, initiate_upload, complete_upload, thumbnail_upload, list_videos, get_playback_info,
  create_job, list_jobs, credential_headers,
}

-- The request goes to the API's address and carries the credential: as a bearer token, or as an
-- API key.
pub record IsAuthorized (h : Host) (credential : String) (r : HttpRequest) : Type 0 where
  pub path : String
  pub to_api : r.url ≡ base_url h ⧺ path
  pub carries :
      (lookup "Authorization" r.headers ≡ some ("Bearer " ⧺ credential))
      ⊎ (lookup "x-api-key" r.headers ≡ some credential)

module _ (h : Host) (credential : String) where
  json_or_throw-Sends :
      (r : HttpResponse) (s : String) → Sends (IsAuthorized h credential) (json_or_throw r s)
  unfolding json_or_throw
  json_or_throw-Sends r s = search sends

  -- A request to a path of the API with the credential as a bearer token.
  pub bearer_request :
      (r : HttpRequest) (path : String)
      → r.url ≡ base_url h ⧺ path
      → lookup "Authorization" r.headers ≡ some ("Bearer " ⧺ credential)
      → Sends (IsAuthorized h credential) (send h r)
  bearer_request r path e c = Sends-send h r (record { path = path; to_api = e; carries = inl c })

  pub initiate_upload-Sends :
      (body : Value) → Sends (IsAuthorized h credential) (initiate_upload h body credential)
  unfolding initiate_upload
  initiate_upload-Sends body =
      Sends-bind (bearer_request _ _ refl refl) (λ r. json_or_throw-Sends r _)

  pub complete_upload-Sends :
      (object_id upload_id key parts video_id : Value)
      → Sends
          (IsAuthorized h credential)
          (complete_upload h object_id upload_id key parts credential video_id)
  unfolding complete_upload
  complete_upload-Sends object_id upload_id key parts video_id =
      Sends-bind (bearer_request _ _ refl refl) (λ r. json_or_throw-Sends r _)

  pub thumbnail_upload-Sends :
      (video_id : String) (thumbnail : File) (name content_type : String) (size : Number)
      → Sends
          (IsAuthorized h credential)
          (thumbnail_upload h video_id thumbnail name content_type size credential)
  unfolding thumbnail_upload
  thumbnail_upload-Sends video_id thumbnail name content_type size =
      Sends-bind (bearer_request _ _ refl refl) (λ r. search sends)

  pub list_videos-Sends :
      (options : Value) → Sends (IsAuthorized h credential) (list_videos h options credential)
  unfolding list_videos
  list_videos-Sends options =
      Sends-bind (bearer_request _ _ refl refl) (λ r. json_or_throw-Sends r _)

  pub get_playback_info-Sends :
      (video_id : Value)
      → Sends (IsAuthorized h credential) (get_playback_info h video_id credential)
  unfolding get_playback_info
  get_playback_info-Sends video_id =
      Sends-bind (bearer_request _ _ refl refl) (λ r. json_or_throw-Sends r _)

  carries_credential :
      (is_bearer : Bool)
      → is_empty credential ≡ false
      → let headers =
          ("Content-Type", "application/json") ∷ credential_headers h credential is_bearer in
        (lookup "Authorization" headers ≡ some ("Bearer " ⧺ credential))
        ⊎ (lookup "x-api-key" headers ≡ some credential)
  carries_credential true e = inl (rw e)
  carries_credential false e = inr (rw e)

  pub create_job-Sends :
      (video_id : Value) (is_bearer : Bool)
      → is_empty credential ≡ false
      → Sends (IsAuthorized h credential) (create_job h video_id credential is_bearer)
  unfolding create_job
  create_job-Sends video_id is_bearer e =
      Sends-bind
        (Sends-send h _
          (record { path = _; to_api = refl; carries = carries_credential is_bearer e }))
        (λ r. search sends)

  pub list_jobs-Sends :
      (limit : Value) → Sends (IsAuthorized h credential) (list_jobs h credential limit)
  unfolding list_jobs
  list_jobs-Sends limit = Sends-bind (bearer_request _ _ refl refl) (λ r. search sends)
