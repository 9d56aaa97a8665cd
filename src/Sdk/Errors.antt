-- ===== src/Sdk/Errors.antt =====
-- sdk/js/packages/sdk/src/utils/handleApiError.ts: the exception for a response that is not ok.
pub mod Classes
use motionmesh.Base.{
  ℕ, Bool, true, false, ◌&&◌, not, String, List, [], ◌∷◌, ◌==◌, if◌then◌else◌, or_else, ◌⧺◌, str_eq,
}
use motionmesh.Js.Value.{Value, null, str, arr, get, is_truthy, to_string, join}
use motionmesh.Js.Exception.{Exception, error, plan_required, Result, ok, thrown}
use motionmesh.Http.{HttpResponse, Net, raise}

-- `try { errorData = await response.json() } catch { errorData = null }`
abbrev pub json_or_null : HttpResponse → Value
json_or_null r = elim r.json [ ok v ↦ v | thrown e ↦ null ]

abbrev pub route_not_found : String
route_not_found =
    "Motionmesh API route not found. Make sure you have created the file at app/api/motionmesh/route.ts"

-- The `switch (context)`.
unfoldable pub context_message : String → String
context_message context =
    if str_eq context "initiate"
    then "Upload initiation failed"
    else if str_eq context "complete"
    then "Upload completion failed"
    else if str_eq context "preview"
    then "Failed to get the file preview"
    else "Request failed"

unfoldable pub error_message : HttpResponse → String → Value → Value
error_message r context errors =
    if is_truthy (get "error" errors)
    then get "error" errors
    else if is_truthy (get "message" errors)
    then get "message" errors
    else if not (is_truthy errors)
    then str (or_else r.status_text (context_message context))
    else str (context_message context)

unfoldable pub api_error : HttpResponse → String → Exception
api_error r context =
    let errors = json_or_null r in
    if r.status == 404
    then error route_not_found
    else if r.status == 403 && is_truthy (get "required_plan" errors)
    then plan_required (get "required_plan" errors)
    else error ("[Motionmesh] " ⧺ to_string (error_message r context errors))

-- `handleApiError` returns nothing: it throws.
abbrev pub handle_api_error {ℓ} : {A : Type ℓ} → HttpResponse → String → Net A
handle_api_error r context = raise (api_error r context)

-- `Array.isArray(msg) ? msg.join(", ") : msg || data?.error || fallback`
unfoldable pub readable : Value → Value → String → String
readable (arr vs) errors fallback = join ", " vs
readable msg errors fallback =
    if is_truthy msg then to_string msg else if is_truthy errors then to_string errors else fallback
