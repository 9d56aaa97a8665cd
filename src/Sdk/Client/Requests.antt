-- ===== src/Sdk/Client/Requests.antt =====
-- What the client class sends, and what `request` makes of each answer.
use motionmesh.Base.{
  ◌≡◌, refl, sym, ◌∙◌, Bool, true, false, List, [], ◌∷◌, ◌++◌, arith, String, some, inl, inr, ◌⊎◌,
  if◌then◌else◌, lookup, ◌⧺◌, ◌==◌,
}
use motionmesh.Js.Value.{Value, undefined, null, bool, num, str, arr, obj, get}
use motionmesh.Js.Exception.{Result, ok, thrown, read}
use motionmesh.Http.{Body, empty, HttpRequest, HttpResponse, is_ok, World, Host, send}
use motionmesh.Http.Laws.{
  Grows, Grows-step, Grows-read, Grows-Sends, Sends, Sends-send, Sends-bind, Sends-pure, Sends-mono,
  sends,
}
use motionmesh.Sdk.Errors.{api_error}
use motionmesh.Sdk.Uploads.{Media, upload_file}
use motionmesh.Sdk.Uploads.Requests.{IsChunk, parts_in, upload_file-Sends}
use motionmesh.Sdk.Client.{Client, client_request, request, upload_media, upload_video}

-- A request to the client's address with its key.
pub record IsOwn (c : Client) (r : HttpRequest) : Type 0 where
  pub path : String
  pub to_api : r.url ≡ c.base_url ⧺ path
  pub carries : lookup "Authorization" r.headers ≡ some ("Bearer " ⧺ c.api_key)

get-read : (k : String) (v p : Value) → read k v ≡ ok p → get k v ≡ p
get-read k undefined p e = absurd cc
get-read k null p e = absurd cc
get-read k (bool b) p e = cc
get-read k (num n) p e = cc
get-read k (str s) p e = cc
get-read k (arr vs) p e = cc
get-read k (obj ms) p e = cc

null_lists_nothing : {P : Type 0} (v p : Value) → v ≡ null → read "parts" v ≡ ok p → P
null_lists_nothing null p n e = absurd cc
null_lists_nothing undefined p n e = absurd cc
null_lists_nothing (bool b) p n e = absurd cc
null_lists_nothing (num k) p n e = absurd cc
null_lists_nothing (str s) p n e = absurd cc
null_lists_nothing (arr vs) p n e = absurd cc
null_lists_nothing (obj ms) p n e = absurd cc

-- The API answers a request with a value.
pub record Answers (answer : Result HttpResponse) (v : Value) : Type 0 where
  pub response : HttpResponse
  pub answered : answer ≡ ok response
  pub success : is_ok response ≡ true
  pub has_content : (response.status == 204) ≡ false
  pub parsed : response.json ≡ ok v

module _ (h : Host) (c : Client) where
  request-Sends :
      (path method : String) (body : Body) → Sends (IsOwn c) (request h c path method body)
  unfolding request
  request-Sends path method body =
      Sends-bind (Sends-send h _ (record { path = path; to_api = refl; carries = refl }))
        λ r. search sends

  -- An answer with a value is returned as that value.
  pub request-Answers :
      (path method : String) (body : Body) (w : World) (v : Value)
      → Answers (h.fetch w.sent (client_request c path method body)) v
      → request h c path method body w
        ≡ (ok v, record w { sent = w.sent ++ client_request c path method body ∷ [] })
  unfolding request send
  request-Answers path method body w v a = rw (a.answered, a.success, a.has_content, a.parsed)

  -- What `request` makes of an answer: the exception for its error where it is no success, null
  -- for status 204, and otherwise what reading its body as JSON gives. One request is sent in each
  -- case.
  pub request-response :
      (path method : String) (body : Body) (w : World) (r : HttpResponse)
      → h.fetch w.sent (client_request c path method body) ≡ ok r
      → request h c path method body w ≡ (
        (if is_ok r
            then (if r.status == 204 then ok null else r.json)
            else thrown (api_error r "api_request")),
        record w { sent = w.sent ++ client_request c path method body ∷ [] },
      )
  unfolding request send
  request-response path method body w r e = rw e (ground arith)

  -- The API answers the second of two requests with a body that lists parts, and a chunk goes to
  -- the address of one of them.
  pub record IsGivenChunk (media : Media) (before : List HttpRequest) (r : HttpRequest)
      : Type 0 where
    pub first : HttpRequest
    pub second : HttpRequest
    pub response : HttpResponse
    pub body : Value
    pub asks : IsOwn c second
    pub answered : h.fetch (before ++ first ∷ []) second ≡ ok response
    pub parsed : response.json ≡ ok body
    pub chunk : IsChunk media (parts_in (get "parts" body)) r

  module _ (path method : String) (body : Body) where
    abbrev own : HttpRequest
    own = client_request c path method body

    abbrev Informs : World → Result Value × World → Type 0
    Informs w (ok v, w') =
        (w'.sent ≡ w.sent ++ own ∷ [])
        × ((v ≡ null) ⊎ ((r : HttpResponse) × (h.fetch w.sent own ≡ ok r) × (r.json ≡ ok v)))
    Informs w (thrown e, w') = w'.sent ≡ w.sent ++ own ∷ []

    read-Informs :
        (w w' : World) (r : HttpResponse) (j : Result Value)
        → h.fetch w.sent own ≡ ok r
        → w'.sent ≡ w.sent ++ own ∷ []
        → r.json ≡ j
        → Informs w (j, w')
    read-Informs w w' r (ok v) a s e = (s, inr (r, a, e))
    read-Informs w w' r (thrown x) a s e = s

    if-Informs :
        (b d : Bool) (w w' : World) (r : HttpResponse)
        → h.fetch w.sent own ≡ ok r
        → w'.sent ≡ w.sent ++ own ∷ []
        → Informs w (
          (if b then (if d then ok null else r.json) else thrown (api_error r "api_request")),
          w',
        )
    if-Informs true true w w' r a s = (s, inl refl)
    if-Informs true false w w' r a s = read-Informs w w' r r.json a s refl
    if-Informs false d w w' r a s = s

    request-Informs : (w : World) → Informs w (request h c path method body w)
    request-Informs w = informed (h.fetch w.sent own) refl
      where
        informed :
            (a : Result HttpResponse)
            → h.fetch w.sent own ≡ a
            → Informs w (request h c path method body w)
        informed (ok r) e =
            rw (request-response path method body w r e)
              (if-Informs (is_ok r) (r.status == 204) w _ r e refl)
        informed (thrown x) e = unfold request send in rw e refl

    -- What is known of a value that `request` returned.
    request-returned :
        (w w' : World) (v : Value)
        → request h c path method body w ≡ (ok v, w')
        → Informs w (ok v, w')
    request-returned w w' v e = rw e at (request-Informs w)

  abbrev pub Uploads : Media → World → HttpRequest → Type 0
  Uploads media w r = IsOwn c r ⊎ IsGivenChunk media w.sent r

  own-Sends :
      (media : Media) (w : World) (path method : String) (body : Body)
      → Sends (Uploads media w) (request h c path method body)
  own-Sends media w path method body = Sends-mono (λ r p. inl p) (request-Sends path method body)

  -- The chunks of a list of parts that the API has given out.
  given-Sends :
      (w w₁ w₂ : World) (path : String) (first : HttpRequest) (media : Media) (listed parts : Value)
      (data_ : Value)
      → w₁.sent ≡ w.sent ++ first ∷ []
      → Informs path "GET" empty w₁ (ok listed, w₂)
      → read "parts" listed ≡ ok parts
      → get "parts" data_ ≡ parts
      → Sends (Uploads media w) (upload_file h media data_)
  given-Sends w w₁ w₂ path first media listed parts data_ s (_, inl n) e d =
      null_lists_nothing listed parts n e
  given-Sends w w₁ w₂ path first media listed parts data_ s (_, inr (r, a, j)) e d =
      Sends-mono
        (λ q k. inr (record {
          first = first;
          second = client_request c path "GET" empty;
          response = r;
          body = listed;
          asks = record { path = path; to_api = refl; carries = refl };
          answered = rw s at a;
          parsed = j;
          chunk = rw (d ∙ sym (get-read "parts" listed parts e)) at k;
        }))
        (upload_file-Sends h media data_)

  upload_media-Grows :
      (media : Media) (options : Value) (w : World)
      → Grows (Uploads media w) w (upload_media h c media options w).1
  unfolding upload_media
  upload_media-Grows media options w =
      Grows-step w _ _ ((own-Sends media w _ _ _).grows w) λ initial w₁ e₁ g₁.
        Grows-read w w₁ (read "video" initial) _ g₁ λ video _.
          Grows-read w w₁ (read "id" video) _ g₁ λ id _.
            Grows-step w _ _ (Grows-Sends w w₁ g₁ (own-Sends media w _ _ _)) λ listed w₂ e₂ g₂.
              Grows-read w w₂ (read "parts" listed) _ g₂ λ parts e. Grows-Sends w w₂ g₂ (
                Sends-bind
                  (given-Sends w w₁ w₂ _ _ media listed parts _
                    (request-returned _ _ _ w w₁ initial e₁).0
                    (request-returned _ _ _ w₁ w₂ listed e₂) e refl)
                  λ u. Sends-bind (own-Sends media w _ _ _) λ completed. Sends-pure _)

  pub upload_video-Sends :
      (media : Media) (options : Value) (w : World)
      → Grows
          (λ r. IsOwn c r ⊎ IsGivenChunk media w.sent r)
          w
          (upload_video h c (some media) options w).1
  unfolding upload_video
  upload_video-Sends media options w = upload_media-Grows media options w
