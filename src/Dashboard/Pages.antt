-- ===== src/Dashboard/Pages.antt =====
-- client/dashboard/src/app/dashboard: the handlers of the pages for videos, buckets, branding and
-- media conversion, from the outcome of their one call on. The client that makes the calls is a
-- package: a call throws, or gives data, an error and a response with a status. Of a message its
-- title is kept, of a navigation its target.
pub mod Handlers
pub mod Lists
pub mod Polling
pub mod Video
pub mod Playing
pub mod Watermark
pub mod Creating
use motionmesh.Base.{
  ℕ, Bool, true, false, not, ◌&&◌, ◌||◌, Option, none, some, String, List, [], ◌∷◌, ◌++◌,
  if◌then◌else◌, is_empty, ltb, leb, ◌==◌,
}
use motionmesh.Js.Value.{Value, get, is_truthy, is_array}
use motionmesh.Js.Exception.{Exception, error, Result, ok, thrown}
use motionmesh.Player.Country.{trim}
use motionmesh.Dashboard.Activity.{is_text}

pub record Outcome : Type 0 where
  pub data_ : Value
  pub error_ : Value
  pub status : ℕ

-- `error || !response.ok`
abbrev pub is_failure : Outcome → Bool
is_failure o = is_truthy o.error_ || not (leb 200 o.status && ltb o.status 300)

-- What the pages have in common: whether the call is under way, whether their dialog is open, what
-- was typed, the list of the query library and whether it is to be loaded again, the messages, and
-- where the browser was sent.
pub record Screen : Type 0 where
  pub is_busy : Bool
  pub is_dialog_open : Bool
  pub name : String
  pub region : String
  pub cache : Option (List Value)
  pub is_stale : Bool
  pub toasts : List String
  pub place : Option String

abbrev pub tell : String → Screen → Screen
tell title s = record s { toasts = s.toasts ++ title ∷ [] }

-- `[v, ...(old ?? [])]`
abbrev pub put_first : Value → Option (List Value) → Option (List Value)
put_first v none = some (v ∷ [])
put_first v (some vs) = some (v ∷ vs)

-- The query of the page of videos: the list, or an exception, after a message for some statuses.
unfoldable pub load_videos : Outcome → Screen → Result Value × Screen
load_videos o s =
    if is_failure o
    then (
      thrown (error "Failed to load videos"),
      if o.status == 401 || o.status == 403
          then tell "Unauthorized" s
          else if o.status == 429
          then tell "Rate Limited" s
          else s,
    )
    else (if is_array o.data_ then (ok o.data_, s) else (ok (get "videos" o.data_), s))

-- `hasProcessingVideos`, which turns the polling on.
unfoldable pub has_processing : List Value → Bool
has_processing [] = false
has_processing (v ∷ vs) =
    is_text "processing" (get "status" v) || is_text "queued" (get "status" v) || has_processing vs

-- `handleFileSelected`, after a file was chosen, with what the upload gives.
unfoldable pub handle_file_selected : Result Value → Screen → Screen
handle_file_selected (ok video) s = record (tell "Upload complete" (tell "Uploading…" s)) {
  cache = put_first video s.cache;
  is_dialog_open = false;
  is_busy = false;
}
handle_file_selected (thrown e) s = record (tell "Upload failed" (tell "Uploading…" s)) {
  is_busy = false;
}

-- The page of a video: `handleDelete`.
unfoldable pub handle_delete : Result Outcome → Screen → Screen
handle_delete (thrown e) s = record (tell "Failed to delete video" s) { is_busy = false }
handle_delete (ok o) s =
    if is_failure o
    then record (tell "Failed to delete video" s) { is_busy = false }
    else record (tell "Video deleted" s) {
      is_dialog_open = false;
      is_stale = true;
      place = some "/dashboard/videos";
      is_busy = false;
    }

-- `handleCreateBucket`; a status is not looked at.
unfoldable pub handle_create_bucket : Result Outcome → Screen → Screen
handle_create_bucket outcome s = if is_empty s.name || is_empty s.region then s else elim outcome [
  | thrown e ↦ tell "Failed to create bucket" s
  | ok o ↦
      if is_truthy o.error_
      then tell "Failed to create bucket" s
      else record (tell "Bucket created" s) {
        cache = put_first o.data_ s.cache;
        is_stale = true;
        is_dialog_open = false;
        name = "";
        region = "";
      }
]

-- The page of media conversion: `handleCreateJob`, with what the call gives, and the interval of
-- its polling.
unfoldable pub handle_create_job : Result Value → Screen → Screen
handle_create_job outcome s =
    if is_empty (trim s.name) then tell "Validation Error" s else elim outcome [
      | ok job ↦ record (tell "Transcode Job Created" s) {
        name = "";
        is_stale = true;
        is_busy = false;
      }
      | thrown e ↦ record (tell "Failed to create job" s) { is_busy = false }
    ]

unfoldable pub refetch_interval : List Value → ℕ
refetch_interval rows = if has_processing rows then 5000 else 30000

-- The page of branding; the plan is none until it is known.
pub record Branding : Type 0 where
  pub screen : Screen
  pub is_pro : Option Bool
  pub position : Value
  pub opacity : Value

abbrev pub tell_branding : String → Branding → Branding
tell_branding title b = record b { screen = tell title b.screen }

unfoldable pub load_branding : Result Outcome → Branding → Branding
load_branding (thrown e) b = tell_branding "Network Error" b
load_branding (ok o) b =
    if is_failure o
    then (if o.status == 403
        then record b { is_pro = some false }
        else if o.status == 401
        then tell_branding "Unauthorized" b
        else if o.status == 429
        then tell_branding "Rate Limited" b
        else b)
    else if is_truthy o.data_
    then (if is_truthy (get "position" o.data_)
        then record b {
          is_pro = some true;
          position = get "position" o.data_;
          opacity = get "opacity" o.data_;
        }
        else record b { is_pro = some true })
    else b

-- `handleSave`
unfoldable pub handle_save : Result Outcome → Screen → Screen
handle_save (thrown e) s = record (tell "Error" s) { is_busy = false }
handle_save (ok o) s =
    if is_failure o
    then record (tell "Error" s) { is_busy = false }
    else record (tell "Success" s) { is_busy = false }
