-- ===== src/Sdk/Uploads.antt =====
-- sdk/js/packages/sdk/src/services/dashboardUpload.ts and uploadFile.ts: the uploads of more than
-- one request.
pub mod Chunks
pub mod Coverage
pub mod Failures
pub mod Requests
use motionmesh.Base.{
  ℕ, zero, suc, ◌+◌, ◌-◌, ◌*◌, ◌/◌, Bool, true, false, not, Option, none, some, String, List, [],
  ◌∷◌, ◌++◌, if◌then◌else◌, is_empty, or_else, ◌⧺◌, length, take, drop, lookup, ltb, leb, ◌==◌, min,
}
use motionmesh.Base.Ints.{ℤ, pos, negsuc}
use motionmesh.Js.Number.{
  Number, whole, nan, nat, show_number, add, subtract, multiply, minimum, is_truthy_number,
}
use motionmesh.Js.Value.{
  Value, undefined, null, str, num, arr, obj, object, to_values, is_truthy, get, or_nullish,
  to_string, to_json, to_number, elements,
}
use motionmesh.Js.Exception.{Exception, error, Result, ok, thrown, read}
use motionmesh.Http.{
  File, Body, empty, json, binary, HttpRequest, HttpResponse, is_ok, Progress, Host, Net, ◌>>=◌,
  ◌>>◌, pure, raise, send, report, read_json, read_text, prop, per_option,
}
use motionmesh.Sdk.Auth.{base_url, bearer, json_type}

module _ (h : Host) where
  abbrev pub dashboard_request : String → String → Number → Value → HttpRequest
  dashboard_request credential filename size_bytes bucket_id = record {
    method = "POST";
    url = base_url h ⧺ "/videos";
    headers = bearer credential ∷ json_type ∷ [];
    body = json (
        to_json (
          object (
            ("filename", str filename)
            ∷ ("size_bytes", num size_bytes)
            ∷ ("bucket_id", bucket_id)
            ∷ ("transcode_bucket_id", undefined)
            ∷ [])));
  }

  abbrev pub file_request : String → Value → File → HttpRequest
  file_request credential video_id video = record {
    method = "POST";
    url = base_url h ⧺ ("/videos/" ⧺ (to_string video_id ⧺ "/upload"));
    headers =
        bearer credential
        ∷ ("Content-Type", or_else video.content_type "video/mp4")
        ∷ ("Content-Length", show_number (nat (length video.bytes)))
        ∷ [];
    body = binary video.bytes;
  }

  -- `const { video } = await initRes.json()`
  unfoldable pub destructure_video : Value → Net Value
  destructure_video undefined =
      raise
        (error "Cannot destructure property 'video' of '(intermediate value)' as it is undefined.")
  destructure_video null =
      raise (error "Cannot destructure property 'video' of '(intermediate value)' as it is null.")
  destructure_video v = pure (get "video" v)

  -- `if (!res.ok) { const error = await res.text(); throw … }`
  unfoldable pub check_text : HttpResponse → String → Net (Unit {0})
  check_text r what = if is_ok r then pure tt else (do t ← read_text r; raise (error (what ⧺ t)))

  unfoldable pub dashboard_upload : String → String → Number → File → Value → Net Value
  dashboard_upload credential filename size_bytes video bucket_id = do
    init ← send h (dashboard_request credential filename size_bytes bucket_id)
    check_text init "Failed to initiate upload: "
    v ← read_json init
    created ← destructure_video v
    id ← prop "id" created
    uploaded ← send h (file_request credential id video)
    check_text uploaded "Failed to upload file: "
    pure created

-- What a client gives to upload: a `File`, or a `Buffer` or `Uint8Array`, which has no `size`.
pub data Media : Type 0 where
  file : File → Media
  buffer : List ℕ → Media

abbrev pub content : Media → List ℕ
content (file f) = f.bytes
content (buffer bs) = bs

-- `media.size` as a number: `undefined` counts as NaN.
abbrev pub media_size : Media → Number
media_size (file f) = nat (length f.bytes)
media_size (buffer bs) = nan

-- An index of `slice`: NaN is 0, a negative one counts from the end.
abbrev pub slice_index : ℕ → Number → ℕ
slice_index size (whole (pos n)) = min n size
slice_index size (whole (negsuc n)) = size - suc n
slice_index size nan = 0

-- `media.slice(start, end)`
abbrev pub slice : List ℕ → Number → Number → List ℕ
slice bs start end =
    let s = slice_index (length bs) start in take (slice_index (length bs) end - s) (drop s bs)

-- `chunk.size`
abbrev pub chunk_size : Media → List ℕ → Number
chunk_size (file f) chunk = nat (length chunk)
chunk_size (buffer bs) chunk = nan

-- `Math.round((loaded / total) * 100)`, halves up; 0 / 0 is NaN. No other number divides by 0.
abbrev pub percent : Number → Number → Number
percent (whole (pos a)) (whole (pos zero)) = nan
percent (whole (pos a)) (whole (pos (suc b))) = nat ((200 * a + suc b) / (2 * suc b))
percent _ _ = nan

-- `p.partNumber ?? p.PartNumber`
unfoldable pub get_part_number : Value → Net Value
get_part_number p = do n ← prop "partNumber" p; pure (or_nullish n (get "PartNumber" p))

abbrev pub default_part_size : ℕ
default_part_size = 5 * 1024 * 1024

-- `uploadData.partSize || 5 * 1024 * 1024`, as a number.
abbrev pub part_size_of : Value → Number
part_size_of data_ =
    let v = get "partSize" data_ in if is_truthy v then to_number v else nat default_part_size

abbrev pub part_start : Number → Number → Number
part_start part_num part_size = multiply (subtract part_num (nat 1)) part_size

abbrev pub part_end : Number → Number → Number → Number
part_end start part_size size = minimum (add start part_size) size

abbrev pub part_chunk : Media → Number → Number → List ℕ
part_chunk media part_size part_num =
    let start = part_start part_num part_size in
    slice (content media) start (part_end start part_size (media_size media))

abbrev pub part_request : Media → Number → Value → Value → HttpRequest
part_request media part_size part_num url = record {
  method = "PUT";
  url = to_string url;
  headers = [];
  body = binary (part_chunk media part_size (to_number part_num));
}

abbrev pub completed_part : Value → String → Value
completed_part part_num etag = object (("PartNumber", part_num) ∷ ("ETag", str etag) ∷ [])

-- `res.headers.get("etag")`, where a missing one and an empty one are both refused.
unfoldable pub require_etag : HttpResponse → Value → Net String
require_etag r part_num =
    per_option (lookup "etag" r.headers)
      (raise (error ("Missing ETag for part " ⧺ to_string part_num)))
      (λ etag.
        if is_empty etag
        then raise (error ("Missing ETag for part " ⧺ to_string part_num))
        else pure etag)

module _ (h : Host) (media : Media) (part_size : Number) where
  -- One round of the loop: the entry for `completedParts`, and the bytes uploaded so far.
  unfoldable pub upload_part : Number → Value → Net (Value × Number)
  upload_part uploaded part = do
    part_num ← get_part_number part
    let request = part_request media part_size part_num (get "url" part)
    r ← send h request
    if is_ok r then pure tt else raise (error ("Failed uploading part " ⧺ to_string part_num))
    etag ← require_etag r part_num
    let chunk = part_chunk media part_size (to_number part_num)
    let loaded = add uploaded (chunk_size media chunk)
    let total = media_size media
    report (record { loaded = loaded; total = total; percent = percent loaded total })
    pure (completed_part part_num etag, loaded)

  -- The loop over the parts.
  unfoldable pub upload_parts : Number → List Value → List Value → Net (List Value)
  upload_parts uploaded [] completed = pure completed
  upload_parts uploaded (part ∷ parts) completed = do
    done ← upload_part uploaded part
    upload_parts done.1 parts (completed ++ done.0 ∷ [])

-- `for (const part of parts)` wants something iterable; texts, which are, do not occur.
unfoldable pub iterate : Value → Net (List Value)
iterate (arr vs) = pure (elements vs)
iterate v = raise (error "parts is not iterable")

pub record Uploaded : Type 0 where
  pub object_id : Value
  pub key : Value
  pub upload_id : Value
  pub completed_parts : List Value

unfoldable pub upload_file : Host → Media → Value → Net Uploaded
upload_file h media upload_data = do
  parts ← iterate (get "parts" upload_data)
  completed ← upload_parts h media (part_size_of upload_data) (nat 0) parts []
  pure (record {
    object_id = get "objectId" upload_data;
    key = get "key" upload_data;
    upload_id = get "uploadId" upload_data;
    completed_parts = completed;
  })
