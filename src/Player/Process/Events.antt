-- ===== src/Player/Process/Events.antt =====
-- The account and the video that an event is reported for: what the token of the playback holds.
use motionmesh.Base.{ℕ, ◌≡◌, ◌≢◌, refl, ap, ◌⧺◌, true, String, List, [], ◌∷◌, ◌++◌, some, arith}
use motionmesh.Base.Lists.{All}
use motionmesh.Js.Value.{Value, str, object, get, or, to_string, to_json}
use motionmesh.Js.Base64.{atob, of_codes}
use motionmesh.Js.Exception.{Result, ok, thrown}
use motionmesh.Http.{Headers, Host, World, HttpRequest, HttpResponse, json, send, bind_result}
use motionmesh.Player.Process.{
  base_url, account_id, video_id, until_colon, after_colon, is_event, event_request, process_event,
  pass_on,
}

abbrev pub HasNoColon : List ℕ → Type 0
HasNoColon s = All (λ c. c ≢ b':') s

until_colon-HasNoColon : (s : List ℕ) → HasNoColon s → until_colon s ≡ s
until_colon-HasNoColon [] h = refl
until_colon-HasNoColon (c ∷ s) (n, h) = let rest = until_colon-HasNoColon s h in grind arith

until_colon-append : (s rest : List ℕ) → HasNoColon s → until_colon (s ++ (b':' ∷ rest)) ≡ s
until_colon-append [] rest h = refl
until_colon-append (c ∷ s) rest (n, h) = let more = until_colon-append s rest h in grind arith

after_colon-append : (s rest : List ℕ) → HasNoColon s → after_colon (s ++ (b':' ∷ rest)) ≡ some rest
after_colon-append [] rest h = refl
after_colon-append (c ∷ s) rest (n, h) = let more = after_colon-append s rest h in grind arith

account_id-append : (a v : List ℕ) → HasNoColon a → account_id (a ++ (b':' ∷ v)) ≡ str (of_codes a)
unfolding account_id
account_id-append a v h = rw (until_colon-append a v h) refl

video_id-append :
    (a v : List ℕ) → HasNoColon a → HasNoColon v → video_id (a ++ (b':' ∷ v)) ≡ str (of_codes v)
unfolding video_id
video_id-append a v h k = rw (after_colon-append a v h, until_colon-HasNoColon v k) refl

pass_on-sent : (r : HttpResponse) (fallback : Value) (w : World) → (pass_on r fallback w).1 ≡ w
unfolding pass_on
pass_on-sent r fallback w = ground arith

sent_after :
    (w : World) (answer : Result HttpResponse) (fallback : HttpResponse → Value)
    → (bind_result (answer, w) (λ r. pass_on r (fallback r))).1 ≡ w
sent_after w (ok r) fallback = pass_on-sent r (fallback r) w
sent_after w (thrown e) fallback = refl

-- An event with all its fields, whose token is the base 64 of an account and a video joined by a
-- colon, neither of which has a colon, is sent to the API once, as an event of that account and
-- that video with the country of the page, whatever the API answers.
pub process_event-identifies :
    (h : Host) (api_key : String) (headers : Headers) (payload : Value) (timestamp : String)
    (w : World) (account video : List ℕ)
    → is_event payload ≡ true
    → atob (to_string (get "token" payload)) ≡ some (account ++ (b':' ∷ video))
    → HasNoColon account
    → HasNoColon video
    → (q : HttpRequest) × ((process_event h api_key headers (ok payload) timestamp w).1.sent
        ≡ w.sent ++ (q ∷ []))
      × (q.url ≡ base_url h ⧺ "/analytics/collect")
      × (q.body
          ≡ json (
              to_json (
                object (
                  ("account_id", str (of_codes account))
                  ∷ ("video_id", str (of_codes video))
                  ∷ ("event_type", get "event" payload)
                  ∷ ("timestamp", str timestamp)
                  ∷ ("country", or (get "geo" payload) (str ""))
                  ∷ []))))
unfolding process_event send
process_event-identifies h api_key headers payload timestamp w account video e t a v =
    let q = event_request h api_key headers (account ++ (b':' ∷ video)) payload timestamp in
    (
      q,
      rw (e, t) (ap World.sent (sent_after _ (h.fetch w.sent q) _)),
      refl,
      rw (account_id-append account video a, video_id-append account video a v) refl,
    )
