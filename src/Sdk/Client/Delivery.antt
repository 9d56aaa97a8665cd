-- ===== src/Sdk/Client/Delivery.antt =====
-- The number of parts of an upload, and a whole upload against an API and a store that answer.
use motionmesh.Base.{ℕ, ◌+◌, ◌*◌, ◌≤◌, ◌<◌, ◌≡◌, List, [], ◌∷◌, ◌++◌, arith, length, concat, map}
use motionmesh.Js.Value.{Value, get, arr, Values, elements}
use motionmesh.Js.Exception.{ok, read}
use motionmesh.Http.{File, empty, HttpRequest, World, Host}
use motionmesh.Sdk.Uploads.{file, default_part_size, Uploaded}
use motionmesh.Sdk.Uploads.Coverage.{TakesParts, Numbered, number_of, bytes_of}
use motionmesh.Sdk.Client.{
  Client, client_request, extract_file_meta, total_parts, initiate_body, parts_path, complete_path,
  complete_body, upload_media,
}
use motionmesh.Sdk.Client.Requests.{Answers}

-- The client asks for enough parts of 5 MiB to hold the file, and for no part that would be empty.
pub total_parts_bounds :
    (size : ℕ)
    → (size ≤ total_parts size * default_part_size)
      × (total_parts size * default_part_size < size + default_part_size)
unfolding total_parts
total_parts_bounds size = (omega arith, omega arith)

module _ (h : Host) (c : Client) (f : File) (options : Value) (w : World) where
  abbrev pub initiate : HttpRequest
  initiate =
      client_request c "/videos/multipart" "POST"
        (initiate_body (extract_file_meta (file f)) options)

  abbrev pub list_parts : Value → Value → HttpRequest
  list_parts id initial =
      client_request c (parts_path id (get "upload_id" initial) (total_parts (length f.bytes)))
        "GET" empty

  abbrev pub complete : Uploaded → HttpRequest
  complete u = client_request c (complete_path u.object_id) "POST" (complete_body u)

  -- How an API and its store answer an upload that goes well: they create a video, list as many
  -- parts as are asked for, each with its number from 1 on as `partNumber` or `PartNumber`, as the
  -- client reads it, take every part, and confirm the end. The route of the repository's server
  -- names the number `part_number`, and takes a count of 0 for 10: see Sdk/Client/Numbering.
  pub record Serves : Type 0 where
    pub initial : Value
    pub video : Value
    pub id : Value
    pub listed : Value
    pub items : Values
    pub final : Value
    pub initiated : Answers (h.fetch w.sent initiate) initial
    pub has_video : read "video" initial ≡ ok video
    pub has_id : read "id" video ≡ ok id
    pub listing : Answers (h.fetch (w.sent ++ initiate ∷ []) (list_parts id initial)) listed
    pub has_parts : read "parts" listed ≡ ok (arr items)
    pub numbered : Numbered 0 (elements items)
    pub count : length (elements items) ≡ total_parts (length f.bytes)
    pub takes : TakesParts h
    pub confirms :
        (before : List HttpRequest) (u : Uploaded) → Answers (h.fetch before (complete u)) final

  -- What the upload has done: it has returned the key of the new object, and sent the request for
  -- the upload, the one for the parts, the chunks and the completion, in this order.
  pub record Delivered (s : Serves) : Type 0 where
    pub uploaded : Uploaded
    pub chunks : List HttpRequest
    pub world : World
    pub returns : upload_media h c (file f) options w ≡ (ok (get "object_key" s.initial), world)
    pub sent :
        world.sent
        ≡ (((w.sent ++ initiate ∷ []) ++ list_parts s.id s.initial ∷ []) ++ chunks)
          ++ complete uploaded ∷ []
    pub whole_file : concat (map bytes_of chunks) ≡ f.bytes
    pub same_object : uploaded.object_id ≡ s.id
    pub completed :
        map (λ p. get "PartNumber" p) uploaded.completed_parts ≡ map number_of (elements s.items)
