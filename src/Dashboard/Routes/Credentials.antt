-- ===== src/Dashboard/Routes/Credentials.antt =====
-- With which credential the routes of the dashboard call the API.
use motionmesh.Base.{◌≡◌, refl, true, false, Option, String, none, some, is_empty, ◌⊎◌, inl, inr}
use motionmesh.Js.Exception.{Exception, ok, thrown}
use motionmesh.Http.{IncomingRequest, Host, World, env_or}
use motionmesh.Http.Laws.{Sends}
use motionmesh.Sdk.Services.Requests.{IsAuthorized}
use motionmesh.Sdk.Process.{handle_process_request, process_with_token, failure_reply}
use motionmesh.Sdk.Process.Requests.{handle_process_request-IsAuthorized}
use motionmesh.Player.Process.{PlayerRequest}
use motionmesh.Player.Process.Requests.{Concluded, handle_process_request-relayed}
use motionmesh.Dashboard.Routes.{credential_of, post_sdk, post_player}

module _ (h : Host) where
  -- What a visitor calls the API with: the token of who is signed in, else the environment's key.
  abbrev pub CallsWith : Option String → String → Type 0
  CallsWith none c = h.env "MOTIONMESH_API_KEY" ≡ some c
  CallsWith (some token) c =
      ((is_empty token ≡ false) × (token ≡ c))
      ⊎ ((is_empty token ≡ true) × (h.env "MOTIONMESH_API_KEY" ≡ some c))

  env_or-given :
      (c : String)
      → h.env "MOTIONMESH_API_KEY" ≡ some c
      → is_empty c ≡ false
      → env_or h "MOTIONMESH_API_KEY" "" ≡ c
  env_or-given c e given = rw (env_or, e, given) refl

  credential_of-CallsWith :
      (token : Option String) (c : String)
      → CallsWith token c
      → is_empty c ≡ false
      → credential_of h token ≡ c
  credential_of-CallsWith none c e given = env_or-given c e given
  credential_of-CallsWith (some token) c (inl (full, same)) given = rw full same
  credential_of-CallsWith (some token) c (inr (missing, e)) given =
      rw missing (env_or-given c e given)

  module _ (r : IncomingRequest) (p : PlayerRequest) (timestamp : String) (w : World) where
    -- Both routes call the API with the token of the user, or with the key of the environment where
    -- nobody is signed in: each request of the first goes to the API and carries it, and the second
    -- replies on its own or passes the status of its one request on, which carries it too.
    pub post-IsAuthorized :
        (token : Option String) (c : String)
        → CallsWith token c
        → is_empty c ≡ false
        → Sends (IsAuthorized h c) (post_sdk h (ok token) r)
          × Concluded h c w (post_player h (ok token) p timestamp w)
    unfolding post_sdk post_player
    post-IsAuthorized token c e given = rw (credential_of-CallsWith token c e given) (
      handle_process_request-IsAuthorized h r "" c given,
      handle_process_request-relayed h c p timestamp w,
    )

    -- Where the sign-in service fails neither route sends anything, and the first replies with
    -- status 500, but the second throws.
    post-thrown :
        (e : Exception)
        → (post_sdk h (thrown e) r w ≡ (ok (failure_reply e), w))
          × (post_player h (thrown e) p timestamp w ≡ (thrown e, w))
    unfolding post_sdk post_player handle_process_request process_with_token
    post-thrown e = (refl, refl)
