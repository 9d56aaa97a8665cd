-- ===== src/Sdk/Uploads/Requests.antt =====
-- Which requests the uploads send.
use motionmesh.Base.{◌≡◌, refl, List, [], ◌∷◌, ◌++◌, String}
use motionmesh.Js.Number.{Number}
use mathlib.Core.List.{Memᴰ as Mem}
use mathlib.Core.List.Memᴰ.{head, tail}
use motionmesh.Js.Value.{
  Value, undefined, null, bool, num, str, arr, obj, get, elements, to_string, or_nullish, to_number,
}
use motionmesh.Http.{binary, File, HttpRequest, HttpResponse, is_ok, Host, Net, ◌>>=◌}
use motionmesh.Http.Laws.{
  Sends, Sends-send, Sends-bind, Sends-pure, Sends-raise, Sends-if, Sends-report, Sends-from_result,
  sends,
}
use motionmesh.Sdk.Services.Requests.{IsAuthorized, bearer_request}
use motionmesh.Sdk.Uploads.{
  Media, part_chunk, dashboard_upload, check_text, destructure_video, require_etag, get_part_number,
  iterate, upload_part, upload_parts, upload_file,
}

module _ (P : HttpRequest → Type 0) where
  check_text-Sends : (h : Host) (r : HttpResponse) (what : String) → Sends P (check_text h r what)
  unfolding check_text
  check_text-Sends h r what = search sends

  destructure_video-Sends : (h : Host) (v : Value) → Sends P (destructure_video h v)
  unfolding destructure_video
  destructure_video-Sends h undefined = Sends-raise _
  destructure_video-Sends h null = Sends-raise _
  destructure_video-Sends h (bool b) = Sends-pure _
  destructure_video-Sends h (num n) = Sends-pure _
  destructure_video-Sends h (str s) = Sends-pure _
  destructure_video-Sends h (arr vs) = Sends-pure _
  destructure_video-Sends h (obj fs) = Sends-pure _

  pub get_part_number-Sends : (p : Value) → Sends P (get_part_number p)
  unfolding get_part_number
  get_part_number-Sends p = search sends

  pub require_etag-Sends : (r : HttpResponse) (n : Value) → Sends P (require_etag r n)
  unfolding require_etag
  require_etag-Sends r n = search sends

  pub iterate-Sends : (v : Value) → Sends P (iterate v)
  unfolding iterate
  iterate-Sends (arr vs) = Sends-pure _
  iterate-Sends undefined = Sends-raise _
  iterate-Sends null = Sends-raise _
  iterate-Sends (bool b) = Sends-raise _
  iterate-Sends (num n) = Sends-raise _
  iterate-Sends (str s) = Sends-raise _
  iterate-Sends (obj fs) = Sends-raise _

pub dashboard_upload-Sends :
    (h : Host) (credential filename : String) (size_bytes : Number) (video : File)
    (bucket_id : Value)
    → Sends
        (IsAuthorized h credential)
        (dashboard_upload h credential filename size_bytes video bucket_id)
unfolding dashboard_upload
dashboard_upload-Sends h credential filename size_bytes video bucket_id =
    Sends-bind (bearer_request h credential _ _ refl refl) λ init.
      Sends-bind (check_text-Sends _ h init _) λ _. Sends-bind (Sends-from_result _) λ v.
        Sends-bind (destructure_video-Sends _ h v) λ created. Sends-bind (Sends-from_result _) λ id.
          Sends-bind (bearer_request h credential _ _ refl refl)
            λ uploaded. Sends-bind (check_text-Sends _ h uploaded _) λ _. Sends-pure created

-- The parts that a value lists.
abbrev pub parts_in : Value → List Value
parts_in (arr vs) = elements vs
parts_in _ = []

-- `p.partNumber ?? p.PartNumber`, of a part that has properties.
abbrev pub number_in : Value → Value
number_in p = or_nullish (get "partNumber" p) (get "PartNumber" p)

-- A chunk of a video goes to the address of one of the parts, with no header of the client's, and
-- its bytes are those of that part.
pub record IsChunk (media : Media) (parts : List Value) (r : HttpRequest) : Type 0 where
  pub part : Value
  pub part_size : Number
  pub listed : Mem part parts
  pub to_address : r.url ≡ to_string (get "url" part)
  pub puts : r.method ≡ "PUT"
  pub bare : r.headers ≡ []
  pub holds : r.body ≡ binary (part_chunk media part_size (to_number (number_in part)))

number_bind-Sends {ℓ} :
    {P : HttpRequest → Type 0} {A : Type ℓ} (p : Value) (f : Value → Net A)
    → Sends P (f (number_in p))
    → Sends P (get_part_number p >>= f)
unfolding get_part_number
number_bind-Sends undefined f s = Sends-raise _
number_bind-Sends null f s = Sends-raise _
number_bind-Sends (bool b) f s = record { grows = λ w. s.grows w }
number_bind-Sends (num n) f s = record { grows = λ w. s.grows w }
number_bind-Sends (str t) f s = record { grows = λ w. s.grows w }
number_bind-Sends (arr vs) f s = record { grows = λ w. s.grows w }
number_bind-Sends (obj ms) f s = record { grows = λ w. s.grows w }

upload_part-Sends :
    (h : Host) (media : Media) (part_size uploaded : Number) (part : Value) (all : List Value)
    → Mem part all
    → Sends (IsChunk media all) (upload_part h media part_size uploaded part)
unfolding upload_part
upload_part-Sends h media part_size uploaded part all m = number_bind-Sends part _ (
    Sends-bind
      (Sends-send h _ (record {
        part = part;
        part_size = part_size;
        listed = m;
        to_address = refl;
        puts = refl;
        bare = refl;
        holds = refl;
      }))
      λ r. Sends-bind (Sends-if (is_ok r) (Sends-pure tt) (Sends-raise _)) λ _.
        Sends-bind (require_etag-Sends (IsChunk media all) r _)
          λ etag. Sends-bind (Sends-report _) λ _. Sends-pure _)

upload_parts-Sends :
    (h : Host) (media : Media) (part_size uploaded : Number) (parts completed all : List Value)
    → ((p : Value) → Mem p parts → Mem p all)
    → Sends (IsChunk media all) (upload_parts h media part_size uploaded parts completed)
unfolding upload_parts
upload_parts-Sends h media part_size uploaded [] completed all m = Sends-pure _
upload_parts-Sends h media part_size uploaded (part ∷ parts) completed all m =
    Sends-bind (upload_part-Sends h media part_size uploaded part all (m part (head refl))) λ done.
      upload_parts-Sends h media part_size done.1 parts (completed ++ done.0 ∷ []) all
        (λ p k. m p (tail k))

iterate_bind-Sends {ℓ} :
    {P : HttpRequest → Type 0} {A : Type ℓ} (v : Value) (f : List Value → Net A)
    → Sends P (f (parts_in v))
    → Sends P (iterate v >>= f)
unfolding iterate
iterate_bind-Sends (arr vs) f s = record { grows = λ w. s.grows w }
iterate_bind-Sends undefined f s = Sends-raise _
iterate_bind-Sends null f s = Sends-raise _
iterate_bind-Sends (bool b) f s = Sends-raise _
iterate_bind-Sends (num n) f s = Sends-raise _
iterate_bind-Sends (str s) f g = Sends-raise _
iterate_bind-Sends (obj fs) f s = Sends-raise _

pub upload_file-Sends :
    (h : Host) (media : Media) (upload_data : Value)
    → Sends (IsChunk media (parts_in (get "parts" upload_data))) (upload_file h media upload_data)
unfolding upload_file
upload_file-Sends h media upload_data =
    let all = parts_in (get "parts" upload_data) in
    iterate_bind-Sends (get "parts" upload_data) _
      (Sends-bind (upload_parts-Sends h media _ _ all [] all (λ p m. m)) λ done. Sends-pure _)
