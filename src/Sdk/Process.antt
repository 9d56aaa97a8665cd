-- ===== src/Sdk/Process.antt =====
-- sdk/js/packages/sdk/src/services/processRequest.ts: the handler that an application mounts to
-- pass its front end's requests on to the API.
pub mod Requests
pub mod Replies
use package.text.Mathlib.Text.{find?}
use motionmesh.Base.{
  ℕ, Bool, true, false, not, Option, none, some, String, List, [], ◌∷◌, if◌then◌else◌, is_empty,
  or_else, ◌⧺◌, length, lookup, str_eq,
}
use motionmesh.Js.Number.{Number, nat, text_to_number}
use motionmesh.Js.Value.{
  Value, undefined, null, str, num, arr, obj, object, is_truthy, get, without_field, to_string,
}
use motionmesh.Js.Exception.{Exception, error, message, Result, ok, thrown, read}
use motionmesh.Http.{
  File, FormValue, text, file, FormData, IncomingRequest, Reply, reply, Host, Net, World, ◌>>=◌,
  ◌>>◌, pure, raise, from_result, catch, per_option, header_or_empty,
}
use motionmesh.Sdk.Auth.{verify_api_key_signature}
use motionmesh.Sdk.Services.{
  initiate_upload, complete_upload, thumbnail_upload, list_videos, get_playback_info, create_job,
  list_jobs,
}
use motionmesh.Sdk.Uploads.{dashboard_upload}

abbrev pub failed : ℕ → String → Reply
failed status what = reply status (object (("error", str what) ∷ []))

abbrev pub succeeded : String → Value → Reply
succeeded name v = reply 200 (object ((name, v) ∷ []))

-- `!v || typeof v !== "string"`: what is left is a text that is not empty.
abbrev pub nonempty_text : Option FormValue → Option String
nonempty_text none = none
nonempty_text (some (text s)) = if is_empty s then none else some s
nonempty_text (some (file f)) = none

-- `v instanceof File`
abbrev pub form_file : Option FormValue → Option File
form_file (some (file f)) = some f
form_file _ = none

-- `typeof v === "string" ? v : other`
abbrev pub text_or : Option FormValue → String → String
text_or (some (text s)) other = s
text_or _ other = other

abbrev pub number_or : Option FormValue → Number → Number
number_or (some (text s)) other = text_to_number s
number_or _ other = other

abbrev pub text_or_undefined : Option FormValue → Value
text_or_undefined (some (text s)) = str s
text_or_undefined _ = undefined

-- `text.includes(part)`
abbrev pub includes : String → String → Bool
includes s part = elim (find? s part) [ none ↦ false | some i ↦ true ]

module _ (h : Host) (credential : String) (is_bearer : Bool) where
  -- case "upload-thumbnail"
  unfoldable pub process_thumbnail : FormData → Net Reply
  process_thumbnail fd =
      per_option (nonempty_text (lookup "videoId" fd)) (pure (failed 400 "videoId is required"))
        λ video_id.
          per_option (form_file (lookup "thumbnail" fd))
            (pure (failed 400 "Thumbnail file is required"))
            λ thumbnail. do
              v ←
                  thumbnail_upload h video_id thumbnail
                    (text_or (lookup "thumbnailFileName" fd) thumbnail.name)
                    (text_or (lookup "thumbnailContentType" fd) thumbnail.content_type)
                    (number_or (lookup "thumbnailSize" fd) (nat (length thumbnail.bytes)))
                    credential
              pure (succeeded "thumbnailData" v)

  -- case "dashboardUpload"
  unfoldable pub process_dashboard_upload : FormData → Net Reply
  process_dashboard_upload fd =
      per_option (form_file (lookup "video" fd)) (pure (failed 400 "Video file is required"))
        λ video.
          per_option (nonempty_text (lookup "filename" fd))
            (pure (failed 400 "filename is required"))
            λ filename.
              per_option (nonempty_text (lookup "sizeBytes" fd))
                (pure (failed 400 "sizeBytes is required"))
                λ size_bytes. do
                  v ←
                      dashboard_upload h credential filename (text_to_number size_bytes) video
                        (text_or_undefined (lookup "bucketId" fd))
                  pure (succeeded "video" v)

  unfoldable pub process_form : FormData → Net Reply
  process_form fd =
      per_option (nonempty_text (lookup "type" fd)) (pure (failed 400 "Type is required")) λ type.
        if str_eq type "upload-thumbnail"
        then process_thumbnail fd
        else if str_eq type "dashboardUpload"
        then process_dashboard_upload fd
        else pure (failed 400 "Invalid type")

  -- case "getPlaybackInfo" and case "createTranscodeJob": both want a `videoId`.
  abbrev pub with_video_id : Value → (Value → Net Reply) → Net Reply
  with_video_id rest k =
      if is_truthy (get "videoId" rest)
      then k (get "videoId" rest)
      else pure (failed 400 "videoId is required")

  -- The `switch` on the type of a JSON body.
  unfoldable pub process_action : String → Value → Net Reply
  process_action type rest =
      if str_eq type "upload"
      then (do v ← initiate_upload h rest credential; pure (succeeded "uploadData" v))
      else if str_eq type "complete"
      then (do
        v ←
            complete_upload h (get "objectId" rest) (get "uploadId" rest) (get "key" rest)
              (get "parts" rest) credential (get "videoId" rest)
        pure (succeeded "trackingData" v))
      else if str_eq type "listVideos"
      then (do v ← list_videos h rest credential; pure (succeeded "videos" v))
      else if str_eq type "listAllVideos"
      then (do v ← list_videos h rest credential; pure (succeeded "videos" v))
      else if str_eq type "getPlaybackInfo"
      then with_video_id rest
          (λ id. do v ← get_playback_info h id credential; pure (succeeded "playbackInfo" v))
      else if str_eq type "createTranscodeJob"
      then with_video_id rest
          (λ id. do v ← create_job h id credential is_bearer; pure (succeeded "job" v))
      else if str_eq type "listJobs"
      then (do v ← list_jobs h credential (get "limit" rest); pure (succeeded "jobs" v))
      else pure (failed 400 "Invalid type")

  -- A truthy type that is no text fits no case.
  abbrev pub dispatch_action : Value → Value → Net Reply
  dispatch_action (str type) rest = process_action type rest
  dispatch_action _ rest = pure (failed 400 "Invalid type")

  unfoldable pub process_typed : Value → Net Reply
  process_typed body =
      if is_truthy (get "type" body)
      then dispatch_action (get "type" body) (without_field "type" body)
      else pure (failed 400 "Type is required")

  -- `const { type, ...rest } = body`
  unfoldable pub process_json : Value → Net Reply
  process_json undefined =
      raise (error "Cannot destructure property 'type' of 'body' as it is undefined.")
  process_json null = raise (error "Cannot destructure property 'type' of 'body' as it is null.")
  process_json body = process_typed body

  unfoldable pub process_body : IncomingRequest → Net Reply
  process_body r =
      if includes (header_or_empty "content-type" r.headers) "multipart/form-data"
      then (do fd ← from_result r.form; process_form fd)
      else (do body ← from_result r.json; process_json body)

-- The `catch` of the handler.
unfoldable pub failure_reply : Exception → Reply
failure_reply e = failed 500 (or_else (message e) "An unexpected error occurred")

module _ (h : Host) (r : IncomingRequest) where
  -- The `try` with an API key; a missing key counts as an empty one.
  unfoldable pub process_with_key : String → Net Reply
  process_with_key api_key =
      if is_empty api_key
      then pure (failed 401 "Motionmesh apiKey is required")
      else if verify_api_key_signature api_key
      then process_body h api_key false r
      else pure (failed 401 "Your API key is invalid!")

  -- The `try` with `resolveCredential`, a callback that returns a token or throws.
  unfoldable pub process_with_token : Result String → Net Reply
  process_with_token resolved = do
    credential ← from_result resolved
    process_body h credential true r

  -- `handleProcessRequest`
  unfoldable pub handle_process_request : String → Option (Result String) → Net Reply
  handle_process_request api_key none =
      catch (process_with_key api_key) (λ e. pure (failure_reply e))
  handle_process_request api_key (some resolved) =
      catch (process_with_token resolved) (λ e. pure (failure_reply e))
