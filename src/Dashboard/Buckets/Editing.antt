-- ===== src/Dashboard/Buckets/Editing.antt =====
-- client/dashboard/src/app/dashboard/buckets/[id]/page.tsx: the queries, the states and the handlers
-- of the page of a bucket.
use motionmesh.Base.{
  Bool, true, false, not, ◌&&◌, Option, none, some, String, List, [], ◌∷◌, ◌++◌, if◌then◌else◌,
  is_empty, str_eq, ◌⧺◌,
}
use motionmesh.Js.Value.{Value, get, or_nullish, is_truthy, arr, stop}
use motionmesh.Js.Exception.{error, Result, ok, thrown}
use motionmesh.Http.{
  HttpRequest, HttpResponse, Host, Net, ◌>>=◌, pure, raise, from_result, send, is_ok, empty,
  read_json, prop,
}
use motionmesh.Player.Country.{trim}
use motionmesh.Dashboard.Activity.{is_text}

-- The query of the buckets, from the data and the error of its call.
unfoldable pub load_buckets : Value → Value → Result Value
load_buckets data_ error_ =
    if is_truthy error_
    then thrown (error "Failed to load buckets")
    else ok (or_nullish data_ (arr stop))

-- The query of the objects. A token that is missing is printed as null.
abbrev pub token_text : Option String → String
token_text none = "null"
token_text (some token) = token

abbrev pub objects_request : String → String → Option String → HttpRequest
objects_request api_url id token = record {
  method = "GET";
  url = api_url ⧺ ("/v1/buckets/" ⧺ (id ⧺ "/objects"));
  headers = ("Authorization", "Bearer " ⧺ token_text token) ∷ [];
  body = empty;
}

unfoldable pub load_objects : Host → String → String → Result (Option String) → Net Value
load_objects h api_url id token = do
  t ← from_result token
  r ← send h (objects_request api_url id t)
  read_objects r
  where
    read_objects : HttpResponse → Net Value
    read_objects r =
        if is_ok r
        then (do v ← read_json r; os ← prop "objects" v; pure (or_nullish os (arr stop)))
        else raise (error "Failed to load objects")

-- The state of the page, with the messages it has shown and where it has sent the browser.
pub record Editor : Type 0 where
  pub edited_name : String
  pub is_editing_name : Bool
  pub is_delete_dialog_open : Bool
  pub toasts : List String
  pub place : Option String

-- What is shown: the bucket is found by its id.
pub data BucketScreen : Type 0 where
  loading : BucketScreen
  not_found : BucketScreen
  found : Value → BucketScreen

unfoldable pub find_bucket : String → List Value → BucketScreen
find_bucket id [] = not_found
find_bucket id (b ∷ bs) =
    let rest = find_bucket id bs in if is_text id (get "id" b) then found b else rest

unfoldable pub bucket_screen : Bool → String → List Value → BucketScreen
bucket_screen is_loading id buckets =
    let s = find_bucket id buckets in if is_loading then loading else s

unfoldable pub start_editing : String → Editor → Editor
start_editing name s = record s { edited_name = name; is_editing_name = true }

-- `handleSaveName`, with the bucket's name.
unfoldable pub handle_save_name : String → Editor → Editor
handle_save_name name s =
    if not (is_empty (trim s.edited_name)) && not (str_eq s.edited_name name)
    then record s { toasts = s.toasts ++ "Bucket renamed" ∷ []; is_editing_name = false }
    else record s { is_editing_name = false }

-- `onKeyDown` of the field.
unfoldable pub on_key_down : String → String → Editor → Editor
on_key_down key name s =
    let saved = handle_save_name name s in
    if str_eq key "Enter"
    then saved
    else if str_eq key "Escape"
    then record s { is_editing_name = false }
    else s

-- `handleDelete`
unfoldable pub handle_delete : Editor → Editor
handle_delete s = record s {
  toasts = s.toasts ++ "Bucket deleted" ∷ [];
  place = some "/dashboard/buckets";
}
