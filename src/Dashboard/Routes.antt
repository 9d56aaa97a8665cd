-- ===== src/Dashboard/Routes.antt =====
-- client/dashboard/src/app/api/motionmesh: the two routes that mount the handlers of the packages.
-- What `getToken()` of the sign-in service comes to is given.
pub mod Credentials
use motionmesh.Base.{Option, none, some, String, or_else}
use motionmesh.Js.Exception.{Result, ok, thrown}
use motionmesh.Http.{IncomingRequest, Reply, Host, Net, ◌>>=◌, from_result, env_or}
use motionmesh.Sdk.Process.{handle_process_request as handle_sdk_request}
use motionmesh.Player.Process.{PlayerRequest, handle_process_request as handle_player_request}

module _ (h : Host) where
  -- `token || process.env.MOTIONMESH_API_KEY || ""`
  abbrev pub credential_of : Option String → String
  credential_of none = env_or h "MOTIONMESH_API_KEY" ""
  credential_of (some token) = or_else token (env_or h "MOTIONMESH_API_KEY" "")

  abbrev pub resolve_credential : Result (Option String) → Result String
  resolve_credential (ok token) = ok (credential_of token)
  resolve_credential (thrown e) = thrown e

  -- motionmesh/route.ts: the credential is resolved by the handler.
  unfoldable pub post_sdk : Result (Option String) → IncomingRequest → Net Reply
  post_sdk token r = handle_sdk_request h r "" (some (resolve_credential token))

  -- motionmesh/player/route.ts, `POST` and `GET`.
  unfoldable pub post_player : Result (Option String) → PlayerRequest → String → Net Reply
  post_player token r timestamp = do
    api_key ← from_result (resolve_credential token)
    handle_player_request h api_key r timestamp
