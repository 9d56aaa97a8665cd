-- ===== src/Sdk/Client/Numbering.antt =====
-- An upload through an API that numbers the parts the way the route of the repository's server
-- does: `GET /videos/multipart/{id}/parts` gives each part as `part_number` and `url`.
use motionmesh.Base.{ℕ, ◌≡◌, ◌⊎◌, inl, inr, some, List, [], ◌∷◌, String}
use motionmesh.Base.Lists.{All}
use mathlib.Core.List.{Memᴰ as Mem}
use mathlib.Core.List.Memᴰ.{head, tail, not-nil}
use motionmesh.Js.Number.{nat}
use motionmesh.Js.Value.{Value, str, num, object, get}
use motionmesh.Js.Exception.{ok}
use motionmesh.Http.{HttpRequest, HttpResponse, World, Host}
use motionmesh.Http.Laws.{Grows, All-mono}
use motionmesh.Sdk.Uploads.{Media}
use motionmesh.Sdk.Uploads.Requests.{parts_in}
use motionmesh.Sdk.Uploads.Failures.{IsEmptyPut}
use motionmesh.Sdk.Client.{Client, upload_video}
use motionmesh.Sdk.Client.Requests.{IsOwn, IsGivenChunk, upload_video-Sends}

-- A part as the route of the server gives it.
abbrev pub route_part : ℕ → String → Value
route_part n url = object (("part_number", num (nat n)) ∷ ("url", str url) ∷ [])

abbrev pub IsRoutePart : Value → Type 0
IsRoutePart p = (n : ℕ) × (url : String) × (p ≡ route_part n url)

-- Whatever parts an answer of the host lists, they are given as the route gives them.
abbrev pub NumbersAsRoute : Host → Type 0
NumbersAsRoute h =
    (before : List HttpRequest) (q : HttpRequest) (r : HttpResponse) (v : Value)
    → h.fetch before q ≡ ok r
    → r.json ≡ ok v
    → All IsRoutePart (parts_in (get "parts" v))

listed_part : (vs : List Value) (v : Value) → All IsRoutePart vs → Mem v vs → IsRoutePart v
listed_part [] v ps m = absurd (not-nil m)
listed_part (x ∷ vs) v (p, ps) (head e) = rw e p
listed_part (x ∷ vs) v (p, ps) (tail m) = listed_part vs v ps m

given_chunk-IsEmptyPut :
    (h : Host) (c : Client) (media : Media) (before : List HttpRequest) (r : HttpRequest)
    → NumbersAsRoute h
    → IsGivenChunk h c media before r
    → IsEmptyPut r
given_chunk-IsEmptyPut h c media before r n g =
    let chunk = g.chunk in
    let (k, url, e) =
      listed_part (parts_in (get "parts" g.body)) chunk.part
        (n _ g.second g.response g.body g.answered g.parsed) chunk.listed in
    (chunk.puts, rw e at chunk.holds)

-- Against an API that gives the parts as the route of the repository's server does, no chunk of a
-- video carries a byte: the client looks for `partNumber` and `PartNumber`, finds neither, and
-- cuts each chunk by a number that is none. All it sends else goes to the API with the key.
pub upload_video-route_empty :
    (h : Host) (c : Client) (media : Media) (options : Value) (w : World)
    → NumbersAsRoute h
    → Grows (λ r. IsOwn c r ⊎ IsEmptyPut r) w (upload_video h c (some media) options w).1
upload_video-route_empty h c media options w n =
    let (new, e, all) = upload_video-Sends h c media options w in
    (new, e, All-mono new (λ r p. either r p) all)
  where
    either :
        (r : HttpRequest) → IsOwn c r ⊎ IsGivenChunk h c media w.sent r → IsOwn c r ⊎ IsEmptyPut r
    either r (inl o) = inl o
    either r (inr g) = inr (given_chunk-IsEmptyPut h c media w.sent r n g)
