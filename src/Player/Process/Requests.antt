-- ===== src/Player/Process/Requests.antt =====
-- What the player's handler sends to the API, for any request of the page.
use motionmesh.Base.{
  ◌≡◌, refl, ◌⊎◌, inl, inr, Bool, true, false, String, List, [], ◌∷◌, ◌++◌, Option, none, some,
  is_empty, Bool-cases, ◌⧺◌, lookup, if◌then◌else◌,
}
use motionmesh.Js.Value.{Value, bool, object}
use motionmesh.Js.Exception.{Exception, Result, ok, thrown}
use motionmesh.Http.{
  HttpRequest, HttpResponse, Host, World, Net, Reply, reply, ◌>>=◌, bind_result, send, pure,
  from_result, catch_result, per_option, is_ok,
}
use motionmesh.Player.Keys.{is_probably_jwt, verify_api_key_signature}
use motionmesh.Player.Process.{
  PlayerRequest, base_url, error_body, is_refused_status, failure_reply, pass_on, process_settings,
  process_event, process_playback, process_params, process, handle_process_request,
}

-- The request goes to an address below the API's and carries the key.
abbrev pub CarriesKey : Host → String → HttpRequest → Type 0
CarriesKey h api_key q =
    ((path : String) × (q.url ≡ base_url h ⧺ path))
    × (lookup "Authorization" q.headers ≡ some ("Bearer " ⧺ api_key))

-- The reply to the API's answer: its status, if a reply with a body may have it.
abbrev pub Answers : Result HttpResponse → Result Reply → Type 0
Answers (ok r) (ok p) = (is_refused_status r.status ≡ false) × (p.status ≡ r.status)
Answers (ok r) (thrown e) = is_refused_status r.status ≡ true
Answers (thrown e) (ok p) = ⊥
Answers (thrown e) (thrown e') = Unit

abbrev pub Refused : Result Reply → Type 0
Refused (ok p) = (p.status ≡ 400) ⊎ (p.status ≡ 401)
Refused (thrown e) = Unit

module _ (h : Host) (api_key : String) where
  -- Either nothing is sent, or one request is, and its answer is passed on.
  abbrev pub Relayed : World → Result Reply × World → Type 0
  Relayed w (out, w') =
      ((w' ≡ w) × Refused out)
      ⊎ ((q : HttpRequest) × CarriesKey h api_key q
          × (w'.sent ≡ w.sent ++ (q ∷ []))
          × Answers (h.fetch w.sent q) out)

  pub record Relays (m : Net Reply) : Type 0 where
    pub relayed : (w : World) → Relayed w (m w)

  Relays-400 : (what : String) → Relays (pure (reply 400 (error_body what)))
  Relays-400 what = record { relayed = λ w. inl (refl, inl refl) }

  Relays-401 : (what : String) → Relays (pure (reply 401 (error_body what)))
  Relays-401 what = record { relayed = λ w. inl (refl, inr refl) }

  Relays-if : (b : Bool) {m n : Net Reply} → Relays m → Relays n → Relays (if b then m else n)
  Relays-if true s t = s
  Relays-if false s t = t

  Relays-Option :
      {A : Type 0} (o : Option A) {m : Net Reply} {f : A → Net Reply}
      → Relays m
      → ((a : A) → Relays (f a))
      → Relays (per_option o m f)
  Relays-Option none s t = s
  Relays-Option (some a) s t = t a

  Relays-from_result :
      {A : Type 0} (r : Result A) {f : A → Net Reply}
      → ((a : A) → Relays (f a))
      → Relays (from_result r >>= f)
  Relays-from_result (ok a) s = record { relayed = λ w. (s a).relayed w }
  Relays-from_result (thrown e) s = record { relayed = λ w. inl (refl, tt) }

  Relayed-answer :
      (w w' : World) (q : HttpRequest) (answer : Result HttpResponse)
      (fallback : HttpResponse → Value)
      → CarriesKey h api_key q
      → w'.sent ≡ w.sent ++ (q ∷ [])
      → h.fetch w.sent q ≡ answer
      → Relayed w (bind_result (answer, w') (λ r. pass_on r (fallback r)))
  unfolding pass_on
  Relayed-answer w w' q (thrown e) fallback c s a = inr (q, c, s, rw a tt)
  Relayed-answer w w' q (ok r) fallback c s a = elim (Bool-cases (is_refused_status r.status)) [
    | inl bare ↦ rw bare (inr (q, c, s, rw a bare))
    | inr full ↦ rw full (inr (q, c, s, rw a (full, refl)))
  ]

  Relays-send :
      (q : HttpRequest) (fallback : HttpResponse → Value)
      → CarriesKey h api_key q
      → Relays (send h q >>= λ r. pass_on r (fallback r))
  unfolding send
  Relays-send q fallback c = record {
    relayed = λ w. Relayed-answer w _ q (h.fetch w.sent q) fallback c refl refl;
  }

  ruleset relays = (Relays-400, Relays-401, Relays-if, Relays-Option, Relays-from_result)

  process_settings-Relays :
      (action : String) (body : Result Value) → Relays (process_settings h api_key action body)
  unfolding process_settings
  process_settings-Relays action body =
      Relays-if _
        (Relays-if _ (Relays-send _ (λ r. error_body "Upstream error") ((_, refl), refl))
          (Relays-400 _))
        (Relays-send _ (λ r. error_body "Upstream error") ((_, refl), refl))

  process_event-Relays :
      (r : PlayerRequest) (timestamp : String)
      → Relays (process_event h api_key r.headers r.json timestamp)
  unfolding process_event
  process_event-Relays r timestamp =
      Relays-if _
        (Relays-Option _ (Relays-400 _) (λ decoded.
          Relays-send _ (λ a. object (("success", bool (is_ok a)) ∷ [])) ((_, refl), refl)))
        (Relays-400 _)

  process_playback-Relays : (id : String) → Relays (process_playback h api_key id)
  unfolding process_playback
  process_playback-Relays id =
      Relays-if _ (Relays-400 _)
        (Relays-send _ (λ r. error_body "Upstream error") ((_, refl), refl))

  process_params-Relays :
      (r : PlayerRequest) (timestamp : String) (params : List (String × String))
      → Relays (process_params h api_key r timestamp params)
  unfolding process_params
  process_params-Relays r timestamp params =
      search (relays, process_settings-Relays, process_event-Relays, process_playback-Relays)

  process-Relays : (r : PlayerRequest) (timestamp : String) → Relays (process h api_key r timestamp)
  unfolding process
  process-Relays r timestamp = search (relays, process_params-Relays) depth 8

  -- How a call of the handler ends: by a reply of its own before anything is sent, or by one that
  -- has the status of the API's answer to the one request that is sent.
  abbrev pub Replies : Result HttpResponse → Reply → Type 0
  Replies (ok r) p = p.status ≡ (if is_refused_status r.status then 500 else r.status)
  Replies (thrown e) p = p.status ≡ 500

  abbrev pub Concluded : World → Result Reply × World → Type 0
  Concluded w (ok p, w') =
      ((w' ≡ w) × ((p.status ≡ 400) ⊎ (p.status ≡ 401) ⊎ (p.status ≡ 500)))
      ⊎ ((q : HttpRequest) × CarriesKey h api_key q
          × (w'.sent ≡ w.sent ++ (q ∷ []))
          × Replies (h.fetch w.sent q) p)
  Concluded w (thrown e, w') = ⊥

  Replies-ok : (answer : Result HttpResponse) (p : Reply) → Answers answer (ok p) → Replies answer p
  Replies-ok (ok r) p (full, s) = rw (full, s) refl
  Replies-ok (thrown e) p a = absurd a

  Replies-thrown :
      (answer : Result HttpResponse) (e : Exception) (p : Reply)
      → p.status ≡ 500
      → Answers answer (thrown e)
      → Replies answer p
  Replies-thrown (ok r) e p s bare = rw (bare, s) refl
  Replies-thrown (thrown x) e p s a = s

  Concluded-catch :
      (w : World) (m : Result Reply × World)
      → Relayed w m
      → Concluded w (catch_result m (λ e. pure (failure_reply e)))
  unfolding failure_reply
  Concluded-catch w (ok p, w') (inl (same, inl s)) = inl (same, inl s)
  Concluded-catch w (ok p, w') (inl (same, inr s)) = inl (same, inr (inl s))
  Concluded-catch w (ok p, w') (inr (q, c, s, a)) = inr (q, c, s, Replies-ok _ p a)
  Concluded-catch w (thrown e, w') (inl (same, _)) = inl (same, inr (inr refl))
  Concluded-catch w (thrown e, w') (inr (q, c, s, a)) = inr (q, c, s, Replies-thrown _ e _ refl a)

  -- The handler never throws. Either it sends nothing and replies with status 400, 401 or 500, or
  -- it sends one request, to the API with the key, and replies with the status of the answer:
  -- with 500 where there is no answer, or one whose status a reply cannot have.
  pub handle_process_request-relayed :
      (r : PlayerRequest) (timestamp : String) (w : World)
      → Concluded w (handle_process_request h api_key r timestamp w)
  unfolding handle_process_request
  handle_process_request-relayed r timestamp w =
      Concluded-catch w _ ((process-Relays r timestamp).relayed w)

  -- A key that is neither like a token nor has the prefix of a key is refused with status 401,
  -- and nothing is sent.
  pub handle_process_request-bad_key :
      (r : PlayerRequest) (timestamp : String) (w : World)
      → is_probably_jwt api_key ≡ false
      → verify_api_key_signature api_key ≡ false
      → (what : String) × (handle_process_request h api_key r timestamp w
          ≡ (ok (reply 401 (error_body what)), w))
  unfolding handle_process_request process
  handle_process_request-bad_key r timestamp w jwt key = elim (Bool-cases (is_empty api_key)) [
    | inl missing ↦ rw missing (_, refl)
    | inr given ↦ rw (given, jwt, key) (_, refl)
  ]
