-- ===== src/Sdk/Errors/Classes.antt =====
-- Which exception a response that is not ok becomes.
use motionmesh.Base.{◌≡◌, true, false, String, ◌↔◌, ◌⊎◌, ◌≢◌, arith, ◌⧺◌}
use motionmesh.Js.Value.{Value, get, is_truthy, to_string}
use motionmesh.Js.Exception.{error, plan_required}
use motionmesh.Http.{HttpResponse}
use motionmesh.Sdk.Errors.{json_or_null, route_not_found, error_message, api_error}

-- The caller is asked for a better plan exactly when the status is 403 and the body names a plan,
-- and then for the plan that the body names.
pub api_error-plan_required_iff :
    (r : HttpResponse) (context : String) (plan : Value)
    → (api_error r context ≡ plan_required plan)
      ↔ ((r.status ≡ 403) × (get "required_plan" (json_or_null r) ≡ plan) × (is_truthy plan ≡ true))
unfolding api_error
api_error-plan_required_iff r context plan = (λ e. ground arith, λ h. ground arith)

-- Status 404 is always reported as a missing route, whatever the body says.
api_error-not_found :
    (r : HttpResponse) (context : String)
    → r.status ≡ 404
    → api_error r context ≡ error route_not_found
unfolding api_error
api_error-not_found r context s = ground arith

-- For any status but 403 and 404, an error carries the body's `error`, or, where that is falsy,
-- the body's `message`, if what it carries is truthy.
pub api_error-message :
    (r : HttpResponse) (context : String) (text : Value)
    → r.status ≢ 404
    → r.status ≢ 403
    → is_truthy text ≡ true
    → (get "error" (json_or_null r) ≡ text)
      ⊎ ((is_truthy (get "error" (json_or_null r)) ≡ false)
          × (get "message" (json_or_null r) ≡ text))
    → api_error r context ≡ error ("[Motionmesh] " ⧺ to_string text)
unfolding api_error error_message
api_error-message r context text a b t h = ground arith
