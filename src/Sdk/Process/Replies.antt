-- ===== src/Sdk/Process/Replies.antt =====
-- How the SDK's handler ends: always by a reply, with one of four statuses, and with a refusal
-- only before anything was sent.
use motionmesh.Base.{
  ◌≡◌, refl, ◌⊎◌, inl, inr, Bool, true, false, String, Option, none, some, if◌then◌else◌,
}
use motionmesh.Js.Value.{Value, undefined, null, str, is_truthy, get}
use motionmesh.Js.Exception.{Exception, Result, ok, thrown}
use motionmesh.Http.{
  FormData, IncomingRequest, Reply, Host, Net, World, ◌>>=◌, bind_result, pure, raise, from_result,
  catch_result, per_option,
}
use motionmesh.Sdk.Process.{
  failed, succeeded, process_thumbnail, process_dashboard_upload, process_form, process_action,
  dispatch_action, process_typed, process_json, process_body, failure_reply, process_with_key,
  process_with_token, handle_process_request,
}

-- A reply of the handler's `try`: success, or a refusal that left the world alone.
abbrev pub Judged : World → Result Reply × World → Type 0
Judged w (ok r, w') = (r.status ≡ 200) ⊎ (((r.status ≡ 400) ⊎ (r.status ≡ 401)) × (w' ≡ w))
Judged w (thrown e, w') = Unit

pub record Judges (m : Net Reply) : Type 0 where
  pub judged : (w : World) → Judged w (m w)

Judges-refused : (what : String) → Judges (pure (failed 400 what))
Judges-refused what = record { judged = λ w. inr (inl refl, refl) }

Judges-unauthorized : (what : String) → Judges (pure (failed 401 what))
Judges-unauthorized what = record { judged = λ w. inr (inr refl, refl) }

Judges-raise : (e : Exception) → Judges (raise e)
Judges-raise e = record { judged = λ w. tt }

Judged-succeeded :
    (name : String) (u : World) (p : Result Value × World)
    → Judged u (bind_result p (λ v. pure (succeeded name v)))
Judged-succeeded name u (ok v, w) = inl refl
Judged-succeeded name u (thrown e, w) = tt

Judges-succeeded : (name : String) (m : Net Value) → Judges (m >>= λ v. pure (succeeded name v))
Judges-succeeded name m = record { judged = λ w. Judged-succeeded name w (m w) }

Judges-from_result :
    {A : Type 0} (r : Result A) {f : A → Net Reply}
    → ((a : A) → Judges (f a))
    → Judges (from_result r >>= f)
Judges-from_result (ok a) {f} s = record { judged = λ w. (s a).judged w }
Judges-from_result (thrown e) s = record { judged = λ w. tt }

Judges-if : (b : Bool) {m n : Net Reply} → Judges m → Judges n → Judges (if b then m else n)
Judges-if true s t = s
Judges-if false s t = t

Judges-Option :
    {A : Type 0} (o : Option A) {m : Net Reply} {f : A → Net Reply}
    → Judges m
    → ((a : A) → Judges (f a))
    → Judges (per_option o m f)
Judges-Option none s t = s
Judges-Option (some a) s t = t a

ruleset judges = (
  Judges-refused, Judges-unauthorized, Judges-raise, Judges-succeeded, Judges-from_result,
  Judges-if, Judges-Option,
)

module _ (h : Host) (credential : String) (is_bearer : Bool) where
  process_form-Judges : (fd : FormData) → Judges (process_form h credential is_bearer fd)
  unfolding process_form process_thumbnail process_dashboard_upload
  process_form-Judges fd = search judges depth 9

  process_action-Judges :
      (type : String) (rest : Value) → Judges (process_action h credential is_bearer type rest)
  unfolding process_action
  process_action-Judges type rest = search judges depth 12

  dispatch_action-Judges :
      (type rest : Value) → Judges (dispatch_action h credential is_bearer type rest)
  dispatch_action-Judges (str type) rest = process_action-Judges type rest
  dispatch_action-Judges _ rest = Judges-refused _

  process_typed-Judges : (body : Value) → Judges (process_typed h credential is_bearer body)
  unfolding process_typed
  process_typed-Judges body =
      Judges-if (is_truthy (get "type" body)) (dispatch_action-Judges _ _) (Judges-refused _)

  process_json-Judges : (body : Value) → Judges (process_json h credential is_bearer body)
  unfolding process_json
  process_json-Judges undefined = Judges-raise _
  process_json-Judges null = Judges-raise _
  process_json-Judges body = process_typed-Judges body

  process_body-Judges : (r : IncomingRequest) → Judges (process_body h credential is_bearer r)
  unfolding process_body
  process_body-Judges r = search (judges, process_form-Judges, process_json-Judges)

-- How a call of the handler ends.
abbrev pub Concluded : World → Result Reply × World → Type 0
Concluded w (ok r, w') =
    (r.status ≡ 200) ⊎ (((r.status ≡ 400) ⊎ (r.status ≡ 401)) × (w' ≡ w)) ⊎ (r.status ≡ 500)
Concluded w (thrown e, w') = ⊥

Concluded-catch :
    (w : World) (p : Result Reply × World)
    → Judged w p
    → Concluded w (catch_result p (λ e. pure (failure_reply e)))
unfolding failure_reply
Concluded-catch w (ok r, w') (inl s) = inl s
Concluded-catch w (ok r, w') (inr s) = inr (inl s)
Concluded-catch w (thrown e, w') s = inr (inr refl)

module _ (h : Host) (r : IncomingRequest) where
  process_with_key-Judges : (api_key : String) → Judges (process_with_key h r api_key)
  unfolding process_with_key
  process_with_key-Judges api_key = search (judges, process_body-Judges)

  process_with_token-Judges : (resolved : Result String) → Judges (process_with_token h r resolved)
  unfolding process_with_token
  process_with_token-Judges resolved = search (judges, process_body-Judges)

  -- The handler never throws: it replies with status 200, 400, 401 or 500; and when it refuses a
  -- request by 400 or 401, nothing has been sent.
  pub handle_process_request-Concluded :
      (api_key : String) (resolved : Option (Result String)) (w : World)
      → Concluded w (handle_process_request h r api_key resolved w)
  unfolding handle_process_request
  handle_process_request-Concluded api_key none w =
      Concluded-catch w _ ((process_with_key-Judges api_key).judged w)
  handle_process_request-Concluded api_key (some resolved) w =
      Concluded-catch w _ ((process_with_token-Judges resolved).judged w)
