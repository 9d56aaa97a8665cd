-- ===== src/Player/Urls.antt =====
-- sdk/js/packages/player/src/react/index.tsx: how the player takes the signature from the address
-- of a playlist and puts it on the addresses of the segments, and how it looks. What `new URL(src)`
-- makes of the query stands for the address.
pub mod Signing
use motionmesh.Base.{
  ℕ, Bool, true, false, not, ◌&&◌, ◌||◌, Option, none, some, String, List, [], ◌∷◌, ◌++◌,
  if◌then◌else◌, is_empty, ◌⧺◌, codes, ◌==◌, str_eq,
}
use motionmesh.Base.Ints.{pos}
use motionmesh.Js.Number.{Number, whole, nan}
use motionmesh.Js.Value.{
  Value, undefined, null, str, num, get, or_nullish, is_truthy, to_number, object, to_string,
}
use motionmesh.Js.Exception.{Result, ok, thrown}
use motionmesh.Http.Query.{encode_uri_component}
use motionmesh.Player.Country.{trim}
use motionmesh.Player.Process.{param}

-- The signature as a query, from its three parameters: what follows `token=`, and all of it.
unfoldable pub after_token : String → String → String → String
after_token token expires token_path =
    encode_uri_component token
    ⧺ ("&expires="
        ⧺ (encode_uri_component expires ⧺ ("&token_path=" ⧺ encode_uri_component token_path)))

abbrev pub token_query : String → String → String → String
token_query token expires token_path = "token=" ⧺ after_token token expires token_path

-- `extractTokenParams(src)`
unfoldable pub extract_token_params : Result (List (String × String)) → String
extract_token_params (thrown e) = ""
extract_token_params (ok params) =
    if is_empty (param "token" params)
      || is_empty (param "expires" params)
      || is_empty (param "token_path" params)
    then ""
    else token_query (param "token" params) (param "expires" params) (param "token_path" params)

unfoldable pub begins : List ℕ → List ℕ → Bool
begins [] s = true
begins (p ∷ ps) [] = false
begins (p ∷ ps) (c ∷ s) = (p == c) && begins ps s

unfoldable pub includes : List ℕ → List ℕ → Bool
includes pattern [] = begins pattern []
includes pattern (c ∷ s) = begins pattern (c ∷ s) || includes pattern s

-- `xhrSetup`: the address that the request is opened with instead, if it is.
unfoldable pub xhr_setup : String → String → Option String
xhr_setup token_params url =
    if not (is_empty token_params) && not (includes (codes "token=") (codes url))
    then some (url ⧺ ((if includes (codes "?") (codes url) then "&" else "?") ⧺ token_params))
    else none

-- The address that is asked for in the end.
abbrev pub or_same : String → Option String → String
or_same url none = url
or_same url (some other) = other

abbrev pub requested : String → String → String
requested token_params url = or_same url (xhr_setup token_params url)

-- `Number.isFinite(captionSize) ? captionSize : 18`
abbrev pub finite_size : Number → Number
finite_size (whole n) = whole n
finite_size nan = whole (pos 18)

abbrev pub setting : String → Value → Value → Value
setting name other settings = or_nullish (get name settings) other

-- `playerSettings` of the data.
abbrev pub player_settings : Value → Value
player_settings video_data = or_nullish (get "playerSettings" video_data) (object [])

-- `typeof fontFamily === "string" && fontFamily.trim()`
abbrev pub has_font : Value → Bool
has_font (str family) = not (is_empty (trim family))
has_font _ = false

-- `playerStyle`, as the pairs of the object.
unfoldable pub player_style : Value → List (String × Value)
player_style video_data =
    let settings = player_settings video_data in
    let captions = get "captions" settings in
    let family = get "fontFamily" settings in
    let size = finite_size (to_number (setting "fontSize" (str "18") captions)) in
    ("--vmx-primary", setting "primaryColor" (str "#06b6d4") settings)
    ∷ ("--vmx-caption-color", setting "fontColor" (str "#ffffff") captions)
    ∷ ("--vmx-caption-bg", setting "backgroundColor" (str "rgba(15, 23, 42, 0.75)") captions)
    ∷ ("--vmx-caption-size", str (to_string (num size) ⧺ "px"))
    ∷ (if has_font family then ("fontFamily", family) ∷ [] else [])

pub data Icons : Type 0 where
  default_icons : Icons
  block_icons : Icons
  motionmesh_icons : Icons

-- `layoutIcons`, from the setting `playButton.present`.
abbrev pub icons_of : Value → Icons
icons_of (str preset) =
    if str_eq preset "minimal"
    then default_icons
    else if str_eq preset "block"
    then block_icons
    else motionmesh_icons
icons_of _ = motionmesh_icons

unfoldable pub layout_icons : Value → Icons
layout_icons video_data = icons_of (get "present" (get "playButton" (player_settings video_data)))
