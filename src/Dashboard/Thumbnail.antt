-- ===== src/Dashboard/Thumbnail.antt =====
-- client/dashboard/src/app/api/videos/[id]/thumbnail/route.ts: the route that sends a browser on
-- to the thumbnail of a video.
pub mod Relay
use motionmesh.Base.{
  ℕ, Bool, true, false, ◌||◌, Option, none, some, String, [], ◌∷◌, if◌then◌else◌, is_empty, ◌⧺◌,
  lookup, ◌==◌, ltb, leb,
}
use motionmesh.Js.Exception.{Exception, error, Result, ok, thrown}
use motionmesh.Http.{
  empty, HttpRequest, HttpResponse, is_ok, Host, Net, ◌>>=◌, pure, raise, from_result, catch, send,
  env_or,
}

pub data Answer : Type 0 where
  page : ℕ → String → Answer
  redirect : ℕ → String → Answer

abbrev pub is_redirect_status : ℕ → Bool
is_redirect_status status = status == 302 || status == 303 || status == 307 || status == 308

-- The statuses that `new Response(text, { status })` refuses: those outside its range, and those
-- that do not allow a body.
abbrev pub refuses_body : ℕ → Bool
refuses_body status =
    ltb status 200 || leb 600 status || status == 204 || status == 205 || status == 304

-- `new NextResponse(text, { status })`
abbrev pub respond : String → ℕ → Net Answer
respond text status =
    if refuses_body status
    then raise (error "Response constructor: Invalid response status code")
    else pure (page status text)

-- What follows the redirect: an answer of the API that is no redirect to anywhere.
abbrev pub not_redirected : HttpResponse → Net Answer
not_redirected r =
    if is_ok r
    then respond "Unexpected response" 500
    else respond ("Error: " ⧺ r.status_text) r.status

-- Whether `new URL(text)` takes a text is the platform's.
module _ (is_url : String → Bool) where
  -- `NextResponse.redirect(location, { status })`
  abbrev pub redirect_to : String → ℕ → Net Answer
  redirect_to location status =
      if is_url location
      then pure (redirect status location)
      else raise (error "URL is malformed. Please use only absolute URLs")

  abbrev pub redirect_if_given : HttpResponse → Option String → Net Answer
  redirect_if_given r none = not_redirected r
  redirect_if_given r (some location) =
      if is_empty location then not_redirected r else redirect_to location r.status

  unfoldable pub follow : HttpResponse → Net Answer
  follow r =
      if is_redirect_status r.status
      then redirect_if_given r (lookup "location" r.headers)
      else not_redirected r

module _ (h : Host) (id : String) where
  abbrev pub thumbnail_request : String → HttpRequest
  thumbnail_request token = record {
    method = "GET";
    url = env_or h "MOTIONMESH_BASE_URL" "http://api:8080/v1" ⧺ ("/videos/" ⧺ (id ⧺ "/thumbnail"));
    headers = ("Authorization", "Bearer " ⧺ token) ∷ [];
    body = empty;
  }

module _ (is_url : String → Bool) (h : Host) (id : String) where
  unfoldable pub with_token : String → Net Answer
  with_token token =
      catch (send h (thumbnail_request h id token) >>= follow is_url)
        (λ e. respond "Internal Server Error" 500)

  -- `GET`, given what `getToken()` comes to: no token and an empty one are refused.
  unfoldable pub get_thumbnail : Result (Option String) → Net Answer
  get_thumbnail (thrown e) = raise e
  get_thumbnail (ok none) = respond "Unauthorized" 401
  get_thumbnail (ok (some token)) =
      if is_empty token then respond "Unauthorized" 401 else with_token token
