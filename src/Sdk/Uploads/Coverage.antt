-- ===== src/Sdk/Uploads/Coverage.antt =====
-- The upload of a file in parts against a store that takes every part: the parts hold the file,
-- byte for byte, and progress is reported up to the whole.
use motionmesh.Base.{
  ℕ, suc, ◌+◌, ◌*◌, ◌≤◌, min, ◌≡◌, refl, ap, ◌∙◌, true, false, List, [], ◌∷◌, ◌++◌, arith, String,
  some, is_empty, lookup, length, take, drop, concat, map,
}
use mathlib.Core.Path.{subst}
use mathlib.Core.List.{append-nil, append_assoc}
use motionmesh.Base.Lists.{length-take, length-drop}
use motionmesh.Base.Ints.{pos-add}
use motionmesh.Js.Number.{Number, nat, add}
use motionmesh.Js.Value.{Value, undefined, null, num, arr, obj, get, or_nullish, Values, elements}
use motionmesh.Js.Exception.{Result, ok}
use motionmesh.Http.{
  File, binary, HttpRequest, HttpResponse, is_ok, Progress, World, Host, send, report,
}
use motionmesh.Sdk.Uploads.{
  file, percent, get_part_number, part_request, completed_part, require_etag, upload_part,
  upload_parts, upload_file, part_chunk, part_size_of, iterate, Uploaded,
}
use motionmesh.Sdk.Uploads.Chunks.{pieces, part_chunk_lem, concat-pieces_all}

-- What a store does with an upload: it answers with success and a tag for what it got.
pub record Takes (answer : Result HttpResponse) : Type 0 where
  pub response : HttpResponse
  pub answered : answer ≡ ok response
  pub success : is_ok response ≡ true
  pub etag : String
  pub tagged : lookup "etag" response.headers ≡ some etag
  pub not_empty : is_empty etag ≡ false

-- Every part that the client sends is taken.
abbrev pub TakesParts : Host → Type 0
TakesParts h =
    (before : List HttpRequest) (r : HttpRequest) → r.method ≡ "PUT" → Takes (h.fetch before r)

-- The number of a part, in either spelling.
abbrev pub number_of : Value → Value
number_of part = or_nullish (get "partNumber" part) (get "PartNumber" part)

-- The parts are numbered from `k + 1` on, in order.
abbrev pub Numbered : ℕ → List Value → Type 0
Numbered k [] = Unit
Numbered k (part ∷ parts) = (number_of part ≡ num (nat (suc k))) × Numbered (suc k) parts

get_part_number_lem :
    (part : Value) (n : Number) (w : World)
    → number_of part ≡ num n
    → get_part_number part w ≡ (ok (num n), w)
unfolding get_part_number
get_part_number_lem undefined n w e = cc
get_part_number_lem null n w e = cc
get_part_number_lem (obj fs) n w e = rw e
get_part_number_lem _ n w e = cc

module _ (h : Host) (f : File) (p : ℕ) where
  abbrev put : ℕ → Value → HttpRequest
  put k part = part_request (file f) (nat p) (num (nat (suc k))) (get "url" part)

  -- The bytes that are in the first `k` parts.
  abbrev loaded : ℕ → ℕ
  loaded k = min (k * p) (length f.bytes)

  abbrev progress_at : ℕ → Progress
  progress_at k =
      let total = nat (length f.bytes) in
      record { loaded = nat (loaded k); total = total; percent = percent (nat (loaded k)) total }

  loaded_lem :
      (k : ℕ)
      → add (nat (loaded k)) (nat (length (part_chunk (file f) (nat p) (nat (suc k)))))
        ≡ nat (loaded (suc k))
  loaded_lem k =
      let e : suc k * p ≡ k * p + p = grind arith in
      rw (part_chunk_lem f k p, length-take, length-drop, pos-add) (ap (λ n. nat n) (omega arith))

  upload_part_lem :
      (takes : TakesParts h) (k : ℕ) (part : Value) (w : World)
      → number_of part ≡ num (nat (suc k))
      → upload_part h (file f) (nat p) (nat (loaded k)) part w ≡ (
        ok (
          completed_part (num (nat (suc k))) (takes w.sent (put k part) refl).etag,
          nat (loaded (suc k)),
        ),
        record {
          sent = w.sent ++ put k part ∷ [];
          progress = w.progress ++ progress_at (suc k) ∷ [];
        },
      )
  unfolding upload_part send require_etag report
  upload_part_lem takes k part w e =
      let t = takes w.sent (put k part) refl in
      let total = nat (length f.bytes) in
      rw (get_part_number_lem part (nat (suc k)) w e, t.answered, t.success, t.tagged, t.not_empty)
        (ap
          (λ l. (
            ok (completed_part (num (nat (suc k))) t.etag, l),
            record {
              sent = w.sent ++ put k part ∷ [];
              progress =
                  w.progress
                  ++ record { loaded = l; total = total; percent = percent l total } ∷ [];
            },
          ))
          (loaded_lem k))

  -- The requests for the parts that are numbered from `k + 1` on, and the progress after each.
  abbrev puts : ℕ → List Value → List HttpRequest
  puts k [] = []
  puts k (part ∷ parts) = put k part ∷ puts (suc k) parts

  abbrev reports : ℕ → List Value → List Progress
  reports k [] = []
  reports k (part ∷ parts) = progress_at (suc k) ∷ reports (suc k) parts

  abbrev numbers : ℕ → List Value → List Value
  numbers k [] = []
  numbers k (part ∷ parts) = num (nat (suc k)) ∷ numbers (suc k) parts

  -- Where the loop stands after its rounds.
  abbrev after : World → ℕ → List Value → World
  after w k parts = record {
    sent = w.sent ++ puts k parts;
    progress = w.progress ++ reports k parts;
  }

  upload_parts_lem :
      (takes : TakesParts h) (k : ℕ) (parts done : List Value) (w : World)
      → Numbered k parts
      → (cs : List Value) × (upload_parts h (file f) (nat p) (nat (loaded k)) parts done w
          ≡ (ok (done ++ cs), after w k parts))
        × (map (λ c. get "PartNumber" c) cs ≡ numbers k parts)
  unfolding upload_parts
  upload_parts_lem takes k [] done w n = ([], simp append-nil, refl)
  upload_parts_lem takes k (part ∷ parts) done w (e, n) =
      let t = takes w.sent (put k part) refl in
      let c = completed_part (num (nat (suc k))) t.etag in
      let w' : World = record {
        sent = w.sent ++ put k part ∷ [];
        progress = w.progress ++ progress_at (suc k) ∷ [];
      } in
      let (cs, run, same) = upload_parts_lem takes (suc k) parts (done ++ c ∷ []) w' n in
      (
        c ∷ cs,
        rw (upload_part_lem takes k part w e) (run ∙ simp append_assoc),
        ap (λ l. num (nat (suc k)) ∷ l) same,
      )

-- The bytes that a request carries.
abbrev pub bytes_of : HttpRequest → List ℕ
bytes_of r = elim (r.body) [ binary bs ↦ bs | _ ↦ [] ]

map-puts :
    (h : Host) (f : File) (p k : ℕ) (parts : List Value)
    → map bytes_of (puts h f p k parts) ≡ pieces f.bytes p k (length parts)
map-puts h f p k [] = refl
map-puts h f p k (part ∷ parts) =
    rw (part_chunk_lem f k p)
      (ap (λ l. take p (drop (k * p) f.bytes) ∷ l) (map-puts h f p (suc k) parts))

numbers-eq :
    (h : Host) (f : File) (p k : ℕ) (parts : List Value)
    → Numbered k parts
    → numbers h f p k parts ≡ map number_of parts
numbers-eq h f p k [] n = refl
numbers-eq h f p k (part ∷ parts) (e, n) =
    rw e (ap (λ l. num (nat (suc k)) ∷ l) (numbers-eq h f p (suc k) parts n))

-- What an upload of `f` in the parts `parts` has done when it succeeds.
pub record Holds (f : File) (upload_data : Value) (parts : List Value) (w : World)
    (run : Result Uploaded × World) : Type 0 where
  pub uploaded : Uploaded
  pub world : World
  pub returns : run ≡ (ok uploaded, world)
  pub same_object : uploaded.object_id ≡ get "objectId" upload_data
  pub same_key : uploaded.key ≡ get "key" upload_data
  pub same_upload : uploaded.upload_id ≡ get "uploadId" upload_data
  pub new : List HttpRequest
  pub sent : world.sent ≡ w.sent ++ new
  pub whole_file : concat (map bytes_of new) ≡ f.bytes
  pub numbered : map (λ c. get "PartNumber" c) uploaded.completed_parts ≡ map number_of parts

-- Given parts that are numbered from 1 on and are large enough together, and a store that takes
-- every part, the upload of a file returns: the bodies of the requests that it sent, one after the
-- other, are the file byte for byte, the entries for the completion have the parts' numbers, and the object, key
-- and upload are those of the data.
pub upload_file-Holds :
    (h : Host) (f : File) (p : ℕ) (upload_data : Value) (items : Values) (w : World)
    → TakesParts h
    → get "parts" upload_data ≡ arr items
    → part_size_of upload_data ≡ nat p
    → Numbered 0 (elements items)
    → length f.bytes ≤ length (elements items) * p
    → Holds f upload_data (elements items) w (upload_file h (file f) upload_data w)
unfolding upload_file iterate
upload_file-Holds h f p upload_data items w takes listed size n enough =
    let parts = elements items in
    let (cs, run, same) = upload_parts_lem h f p takes 0 parts [] w n in
    let start : loaded h f p 0 ≡ 0 = omega arith in
    let run' =
      subst
        (λ u. upload_parts h (file f) (nat p) (nat u) parts [] w ≡ (ok cs, after h f p w 0 parts))
        start run in
    record {
      uploaded = record {
        object_id = get "objectId" upload_data;
        key = get "key" upload_data;
        upload_id = get "uploadId" upload_data;
        completed_parts = cs;
      };
      world = after h f p w 0 parts;
      returns = rw (listed, size, run');
      same_object = refl;
      same_key = refl;
      same_upload = refl;
      new = puts h f p 0 parts;
      sent = refl;
      whole_file = rw (map-puts h f p 0 parts) (concat-pieces_all f.bytes p (length parts) enough);
      numbered = same ∙ numbers-eq h f p 0 parts n;
    }
