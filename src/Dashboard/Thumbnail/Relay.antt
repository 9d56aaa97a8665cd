-- ===== src/Dashboard/Thumbnail/Relay.antt =====
-- Where the thumbnail's route sends a browser.
use motionmesh.Base.{
  ℕ, ◌≡◌, ap, ◌∙◌, refl, ◌⊎◌, inl, inr, Bool, true, false, Option, none, some, String, [], ◌∷◌,
  ◌++◌, is_empty, lookup, Bool-cases, ◌⧺◌,
}
use motionmesh.Js.Exception.{Result, ok, thrown}
use motionmesh.Http.{
  HttpRequest, HttpResponse, is_ok, Host, World, send, bind_result, catch_result, env_or,
}
use motionmesh.Dashboard.Thumbnail.{
  Answer, page, redirect, is_redirect_status, respond, refuses_body, thumbnail_request,
  not_redirected, redirect_if_given, follow, with_token, get_thumbnail,
}

module _ (is_url : String → Bool) where
  -- The answer to a response of the API, before errors are caught: it leaves the world alone.
  abbrev pub Follows : HttpResponse → World → Result Answer × World → Type 0
  Follows r w (ok (redirect status location), w') =
      (w' ≡ w)
      × (status ≡ r.status)
      × (is_redirect_status r.status ≡ true)
      × (lookup "location" r.headers ≡ some location)
      × (is_url location ≡ true)
  Follows r w (ok (page status text), w') = (w' ≡ w) × ((status ≡ r.status) ⊎ (status ≡ 500))
  Follows r w (thrown e, w') = w' ≡ w

  respond-Follows :
      (r : HttpResponse) (w : World) (text : String) (status : ℕ)
      → (status ≡ r.status) ⊎ (status ≡ 500)
      → Follows r w (respond text status w)
  respond-Follows r w text status s = elim (Bool-cases (refuses_body status)) [
    | inl bare ↦ rw bare refl
    | inr full ↦ rw full (refl, s)
  ]

  not_redirected-Follows : (r : HttpResponse) (w : World) → Follows r w (not_redirected r w)
  not_redirected-Follows r w = elim (Bool-cases (is_ok r)) [
    | inl k ↦ rw k (respond-Follows r w "Unexpected response" 500 (inr refl))
    | inr k ↦ rw k (respond-Follows r w ("Error: " ⧺ r.status_text) r.status (inl refl))
  ]

  redirect_if_given-Follows :
      (r : HttpResponse) (w : World) (o : Option String)
      → is_redirect_status r.status ≡ true
      → lookup "location" r.headers ≡ o
      → Follows r w (redirect_if_given is_url r o w)
  redirect_if_given-Follows r w none s e = not_redirected-Follows r w
  redirect_if_given-Follows r w (some location) s e = elim (Bool-cases (is_empty location)) [
    | inl m ↦ rw m (not_redirected-Follows r w)
    | inr m ↦ elim (Bool-cases (is_url location)) [
      | inl u ↦ rw (m, u) (refl, refl, s, e, u)
      | inr u ↦ rw (m, u) refl
    ]
  ]

  follow-Follows : (r : HttpResponse) (w : World) → Follows r w (follow is_url r w)
  unfolding follow
  follow-Follows r w = elim (Bool-cases (is_redirect_status r.status)) [
    | inl s ↦ rw s (redirect_if_given-Follows r w (lookup "location" r.headers) s refl)
    | inr s ↦ rw s (not_redirected-Follows r w)
  ]

-- What the route answers to the API's response, or to its absence. It never throws.
abbrev pub Answers : Result HttpResponse → Result Answer → Type 0
Answers (ok r) (ok (redirect status location)) =
    (status ≡ r.status)
    × (is_redirect_status r.status ≡ true)
    × (lookup "location" r.headers ≡ some location)
Answers (ok r) (ok (page status text)) = (status ≡ r.status) ⊎ (status ≡ 500)
Answers (thrown e) (ok (redirect status location)) = ⊥
Answers (thrown e) (ok (page status text)) = status ≡ 500
Answers answer (thrown e) = ⊥

module _ (is_url : String → Bool) (h : Host) (id : String) where
  -- One request is sent, and the outcome answers what came back.
  unfoldable pub Relayed : World → HttpRequest → Result Answer × World → Type 0
  Relayed w q (out, w') = (w'.sent ≡ w.sent ++ (q ∷ [])) × Answers (h.fetch w.sent q) out

  Relayed-followed :
      (w w' : World) (q : HttpRequest) (r : HttpResponse) (out : Result Answer × World)
      → w'.sent ≡ w.sent ++ (q ∷ [])
      → h.fetch w.sent q ≡ ok r
      → Follows is_url r w' out
      → Relayed w q (catch_result out (λ e. respond "Internal Server Error" 500))
  unfolding Relayed
  Relayed-followed w w' q r (ok (redirect status location), u) s a (same, e, k, l, _) =
      (ap World.sent same ∙ s, rw a (e, k, l))
  Relayed-followed w w' q r (ok (page status text), u) s a (same, e) =
      (ap World.sent same ∙ s, rw a e)
  Relayed-followed w w' q r (thrown e, u) s a same = (ap World.sent same ∙ s, rw a (inr refl))

  Relayed-answered :
      (w w' : World) (q : HttpRequest) (answer : Result HttpResponse)
      → w'.sent ≡ w.sent ++ (q ∷ [])
      → h.fetch w.sent q ≡ answer
      → Relayed w q (
          catch_result
            (bind_result (answer, w') (follow is_url))
            (λ e. respond "Internal Server Error" 500))
  unfolding Relayed
  Relayed-answered w w' q (ok r) s a = Relayed-followed w w' q r _ s a (follow-Follows is_url r w')
  Relayed-answered w w' q (thrown e) s a = (s, rw a refl)

  -- The request for the thumbnail: it reads the video's address at the API, with the token.
  pub record AsksThumbnail (token : String) (q : HttpRequest) : Type 0 where
    pub reads : q.method ≡ "GET"
    pub to_api :
        q.url
        ≡ env_or h "MOTIONMESH_BASE_URL" "http://api:8080/v1" ⧺ ("/videos/" ⧺ (id ⧺ "/thumbnail"))
    pub carries : lookup "Authorization" q.headers ≡ some ("Bearer " ⧺ token)

  -- With a token that is not empty the route never throws: it sends the API one request, which reads
  -- the address of the video's thumbnail and carries the token, and redirects only where the answer
  -- is a redirect, with its status and to its location; any other answer becomes a page with its
  -- status, or with 500.
  pub get_thumbnail-relays :
      (token : String) (w : World)
      → is_empty token ≡ false
      → (q : HttpRequest) × AsksThumbnail token q
        × Relayed w q (get_thumbnail is_url h id (ok (some token)) w)
  unfolding get_thumbnail with_token send
  get_thumbnail-relays token w given = (
    thumbnail_request h id token,
    record { reads = refl; to_api = refl; carries = refl },
    rw given (
        Relayed-answered w _ (thumbnail_request h id token)
          (h.fetch w.sent (thumbnail_request h id token)) refl refl),
  )
