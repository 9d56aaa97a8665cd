-- ===== src/Sdk/Uploads/Failures.antt =====
-- What goes wrong in an upload: a part that the store refuses, and a video that is no `File`.
use motionmesh.Base.{ℕ, ◌-◌, ◌≡◌, refl, ap, ◌∙◌, false, List, [], ◌∷◌, ◌++◌, arith, ◌⧺◌, length}
use motionmesh.Js.Number.{Number, whole, nan, minimum, add}
use motionmesh.Js.Value.{Value, get, to_string}
use motionmesh.Js.Exception.{error, ok, thrown}
use motionmesh.Http.{binary, HttpRequest, HttpResponse, is_ok, World, Host, send}
use motionmesh.Http.Laws.{
  Sends, Sends-send, Sends-bind, Sends-pure, Sends-raise, Sends-if, Sends-report,
}
use motionmesh.Sdk.Uploads.{
  Media, buffer, part_chunk, part_start, part_request, get_part_number, upload_part, upload_parts,
  upload_file, slice, slice_index,
}
use motionmesh.Sdk.Uploads.Requests.{get_part_number-Sends, require_etag-Sends, iterate-Sends}

minimum-nan : (n : Number) → minimum n nan ≡ nan
minimum-nan (whole a) = refl
minimum-nan nan = refl

pub part_chunk-buffer : (bs : List ℕ) (p n : Number) → part_chunk (buffer bs) p n ≡ []
part_chunk-buffer bs p n =
    let start = part_start n p in
    ap (slice bs start) (minimum-nan (add start p))
    ∙ let e : 0 - slice_index (length bs) start ≡ 0 = omega arith in rw e

-- A request that carries no byte.
abbrev pub IsEmptyPut : HttpRequest → Type 0
IsEmptyPut r = (r.method ≡ "PUT") × (r.body ≡ binary [])

module _ (h : Host) (bs : List ℕ) (p : Number) where
  upload_part-IsEmptyPut :
      (uploaded : Number) (part : Value)
      → Sends IsEmptyPut (upload_part h (buffer bs) p uploaded part)
  unfolding upload_part
  upload_part-IsEmptyPut uploaded part = Sends-bind (get_part_number-Sends IsEmptyPut part) λ n.
      Sends-bind (Sends-send h _ (refl, ap (λ b. binary b) (part_chunk-buffer bs p _))) λ r.
        Sends-bind (Sends-if (is_ok r) (Sends-pure tt) (Sends-raise _)) λ _.
          Sends-bind (require_etag-Sends IsEmptyPut r n)
            λ etag. Sends-bind (Sends-report _) λ _. Sends-pure _

  upload_parts-IsEmptyPut :
      (uploaded : Number) (parts done : List Value)
      → Sends IsEmptyPut (upload_parts h (buffer bs) p uploaded parts done)
  unfolding upload_parts
  upload_parts-IsEmptyPut uploaded [] done = Sends-pure _
  upload_parts-IsEmptyPut uploaded (part ∷ parts) done =
      Sends-bind (upload_part-IsEmptyPut uploaded part)
        λ d. upload_parts-IsEmptyPut d.1 parts (done ++ d.0 ∷ [])

-- Whatever the bytes of a `Buffer` or `Uint8Array` and whatever the parts, no part that is sent
-- carries a byte: such a value has no `size`, so the end of every slice is NaN.
pub upload_file-buffer_IsEmptyPut :
    (h : Host) (bs : List ℕ) (upload_data : Value)
    → Sends IsEmptyPut (upload_file h (buffer bs) upload_data)
unfolding upload_file
upload_file-buffer_IsEmptyPut h bs upload_data =
    Sends-bind (iterate-Sends IsEmptyPut _)
      λ parts. Sends-bind (upload_parts-IsEmptyPut h bs _ _ parts []) λ done. Sends-pure _

module _ (h : Host) (media : Media) (p uploaded : Number) where
  -- When the store refuses a part, the loop stops with that part's number in the error: nothing
  -- is sent for the parts after it, and no progress is reported for it.
  pub upload_parts-refused :
      (part n : Value) (parts done : List Value) (w : World) (r : HttpResponse)
      → get_part_number part w ≡ (ok n, w)
      → h.fetch w.sent (part_request media p n (get "url" part)) ≡ ok r
      → is_ok r ≡ false
      → upload_parts h media p uploaded (part ∷ parts) done w ≡ (
        thrown (error ("Failed uploading part " ⧺ to_string n)),
        record w { sent = w.sent ++ part_request media p n (get "url" part) ∷ [] },
      )
  unfolding upload_parts upload_part send
  upload_parts-refused part n parts done w r e f refused = rw (e, f, refused)
