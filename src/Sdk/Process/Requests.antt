-- ===== src/Sdk/Process/Requests.antt =====
-- What the SDK's handler sends to the API, for any request of the front end.
use motionmesh.Base.{◌≡◌, Bool, true, false, String, none, some, is_empty, Bool-cases, inl, inr}
use motionmesh.Js.Value.{Value, undefined, null, str, is_truthy, get}
use motionmesh.Js.Exception.{ok}
use motionmesh.Http.{FormData, IncomingRequest, Reply, HttpRequest, Host, Net}
use motionmesh.Http.Laws.{Sends, Sends-pure, Sends-raise, Sends-if, Sends-catch, Sends-mono, sends}
use motionmesh.Sdk.Auth.{verify_api_key_signature}
use motionmesh.Sdk.Auth.Keys.{verify_api_key_signature_iff}
use package.text.Mathlib.TextBridge.{IsPrefix}
use motionmesh.Base.{◌⊎◌}
use motionmesh.Sdk.Services.Requests.{
  IsAuthorized, initiate_upload-Sends, complete_upload-Sends, thumbnail_upload-Sends,
  list_videos-Sends, get_playback_info-Sends, create_job-Sends, list_jobs-Sends,
}
use motionmesh.Sdk.Uploads.Requests.{dashboard_upload-Sends}
use motionmesh.Sdk.Process.{
  process_thumbnail, process_dashboard_upload, process_form, process_action, dispatch_action,
  process_typed, process_json, process_body, process_with_key, process_with_token,
  handle_process_request,
}

module _ (h : Host) (credential : String) (is_bearer : Bool) where
  abbrev IsSafe : Net Reply → Type 0
  IsSafe m = Sends (IsAuthorized h credential) m

  process_form-IsSafe : (fd : FormData) → IsSafe (process_form h credential is_bearer fd)
  unfolding process_form process_thumbnail process_dashboard_upload
  process_form-IsSafe fd = search (sends, thumbnail_upload-Sends, dashboard_upload-Sends) depth 9

  module _ (given : is_empty credential ≡ false) where
    process_action-IsSafe :
        (type : String) (rest : Value) → IsSafe (process_action h credential is_bearer type rest)
    unfolding process_action
    process_action-IsSafe type rest =
        search
          (
            sends, initiate_upload-Sends, complete_upload-Sends, list_videos-Sends,
            get_playback_info-Sends, create_job-Sends, list_jobs-Sends,
          )
          depth 12

    dispatch_action-IsSafe :
        (type rest : Value) → IsSafe (dispatch_action h credential is_bearer type rest)
    dispatch_action-IsSafe (str type) rest = process_action-IsSafe type rest
    dispatch_action-IsSafe _ rest = Sends-pure _

    process_typed-IsSafe : (body : Value) → IsSafe (process_typed h credential is_bearer body)
    unfolding process_typed
    process_typed-IsSafe body =
        Sends-if (is_truthy (get "type" body)) (dispatch_action-IsSafe _ _) (Sends-pure _)

    process_json-IsSafe : (body : Value) → IsSafe (process_json h credential is_bearer body)
    unfolding process_json
    process_json-IsSafe undefined = Sends-raise _
    process_json-IsSafe null = Sends-raise _
    process_json-IsSafe body = process_typed-IsSafe body

    process_body-IsSafe : (r : IncomingRequest) → IsSafe (process_body h credential is_bearer r)
    unfolding process_body
    process_body-IsSafe r = search (sends, process_form-IsSafe, process_json-IsSafe)

module _ (h : Host) (r : IncomingRequest) where
  -- With an API key: whatever the front end asks for, each request that is sent goes to the API
  -- with the key, and only a key of the right form is ever sent.
  abbrev pub KeepsKey : String → HttpRequest → Type 0
  KeepsKey api_key q =
      IsAuthorized h api_key q × (IsPrefix "mot_live_" api_key ⊎ IsPrefix "mot_test_" api_key)

  process_with_key-Sends :
      (api_key : String) → Sends (KeepsKey api_key) (process_with_key h r api_key)
  unfolding process_with_key
  process_with_key-Sends api_key = elim (Bool-cases (is_empty api_key)) [
    | inl missing ↦ rw missing (Sends-pure _)
    | inr given ↦ elim (Bool-cases (verify_api_key_signature api_key)) [
      | inl valid ↦
          rw (given, valid)
            (Sends-mono (λ q p. (p, (verify_api_key_signature_iff api_key).0 valid))
              (process_body-IsSafe h api_key false given r))
      | inr invalid ↦ rw (given, invalid) (Sends-pure _)
    ]
  ]

  -- With an API key, each request that the handler sends goes to the API and carries that key,
  -- whatever the front end asked for; and none is sent unless the key begins with `mot_live_` or
  -- `mot_test_`, which are not the prefixes of the keys that the guides show.
  pub handle_process_request-KeepsKey :
      (api_key : String) → Sends (KeepsKey api_key) (handle_process_request h r api_key none)
  unfolding handle_process_request
  handle_process_request-KeepsKey api_key =
      Sends-catch (process_with_key-Sends api_key) (λ e. Sends-pure _)

  -- With a token that `resolveCredential` returned, each request that the handler sends goes to
  -- the API and carries that token, unless the token is empty.
  pub handle_process_request-IsAuthorized :
      (api_key token : String)
      → is_empty token ≡ false
      → Sends (IsAuthorized h token) (handle_process_request h r api_key (some (ok token)))
  unfolding handle_process_request process_with_token
  handle_process_request-IsAuthorized api_key token given =
      Sends-catch (process_body-IsSafe h token true given r) (λ e. Sends-pure _)
