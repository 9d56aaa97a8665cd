-- ===== src/Sdk/Auth.antt =====
-- sdk/js/packages/sdk/src/configs/index.ts and utils/apiKeySignature.ts: where the API is, and
-- which texts pass for API keys.
pub mod Keys
use text.Mathlib.Text.{starts_with}
use motionmesh.Base.{Bool, true, false, String, List, [], ◌∷◌, if◌then◌else◌, is_empty, ◌⧺◌}
use motionmesh.Http.{Host, Headers, env_or}

-- `getEnvConfig().baseUrl`
pub base_url : Host → String
base_url h = env_or h "MOTIONMESH_BASE_URL" "http://localhost:8080/v1"

unfoldable pub verify_api_key_signature : String → Bool
verify_api_key_signature key =
    if is_empty key
    then false
    else if starts_with key "mot_live_"
    then true
    else if starts_with key "mot_test_"
    then true
    else false

abbrev pub bearer : String → String × String
bearer credential = ("Authorization", "Bearer " ⧺ credential)

abbrev pub json_type : String × String
json_type = ("Content-Type", "application/json")
