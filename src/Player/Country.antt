-- ===== src/Player/Country.antt =====
-- sdk/js/packages/player/src/utils/index.ts, `getUserCountry`: the viewer's country, from memory,
-- from `localStorage` or from a service, in this order. What `JSON.parse` makes of the stored text
-- stands for the text.
pub mod Caching
use Prim.Native.Char.{code}
use Prim.Native.String
use motionmesh.Base.{
  ℕ, zero, suc, ◌+◌, Bool, true, false, Option, none, some, String, List, [], ◌∷◌, ltb,
  if◌then◌else◌,
}
use motionmesh.Base.Ints.{pos, negsuc}
use motionmesh.Js.Number.{Number, whole, nan, nat, is_space}
use motionmesh.Js.Value.{Value, null, str, num, object, get, is_truthy, to_number, to_json}
use motionmesh.Js.Exception.{Exception, error, Result, ok, thrown, read}

-- `TTL_MS`: a week.
abbrev pub ttl_ms : ℕ
ttl_ms = 604800000

-- Whether there is a `window`, and whether `localStorage` can be used or throws.
pub record Browser : Type 0 where
  pub has_window : Bool
  pub storage_works : Bool

-- `cachedCountry`, and the entry of `localStorage`: none is a missing or an empty one. `fetches`
-- counts the calls of the service.
pub record State : Type 0 where
  pub cached : Value
  pub stored : Option (Result Value)
  pub fetches : ℕ

pub record CountryResponse : Type 0 where
  pub is_ok : Bool
  pub text : Result String

-- `a > b`, for a number `b`.
abbrev pub is_after : Number → ℕ → Bool
is_after (whole (pos n)) b = ltb b n
is_after (whole (negsuc n)) b = false
is_after nan b = false

trim_left : String → String
trim_left String.[] = ""
trim_left (String.◌∷◌ c s) =
    let rest = trim_left s in if is_space (code c) then rest else String.◌∷◌ c s

-- A trailing run of spaces is dropped: the rest is trimmed first.
trim_right : String → String
trim_right String.[] = ""
trim_right (String.◌∷◌ c s) =
    let rest = trim_right s in
    let first = if is_space (code c) then "" else String.◌∷◌ c String.[] in
    elim rest [ String.[] ↦ first | String.◌∷◌ d t ↦ String.◌∷◌ c (String.◌∷◌ d t) ]

-- `text.trim()`
unfoldable pub trim : String → String
unfolding trim_left trim_right
trim s = trim_right (trim_left s)

abbrev pub storage_denied : Exception
storage_denied = error "Access is denied for this document."

-- What the look into `localStorage` comes to: a country, nothing, or an exception.
pub data Found : Type 0 where
  served : Value → State → Found
  missed : State → Found
  escaped : Exception → State → Found

-- The `catch`: `localStorage.removeItem(STORAGE_KEY)`, which throws where storage does.
abbrev pub discard : Browser → State → Found
discard b s =
    if b.storage_works then missed (record s { stored = none }) else escaped storage_denied s

-- An entry that was parsed: a fresh one is served and kept in memory, another one is removed.
abbrev pub use_entry : ℕ → State → Value → Found
use_entry now s parsed =
    if is_after (to_number (get "expiresAt" parsed)) now
    then served (get "value" parsed) (record s { cached = get "value" parsed })
    else missed (record s { stored = none })

abbrev pub parse_entry : Browser → ℕ → State → Result Value → Found
parse_entry b now s (thrown e) = discard b s
parse_entry b now s (ok parsed) = elim (read "expiresAt" parsed) [
  | ok v ↦ use_entry now s parsed
  | thrown e ↦ discard b s
]

abbrev pub read_entry : Browser → ℕ → State → Option (Result Value) → Found
read_entry b now s none = missed s
read_entry b now s (some raw) = parse_entry b now s raw

unfoldable pub look_up : Browser → ℕ → State → Found
look_up b now s =
    if b.has_window
    then (if b.storage_works then read_entry b now s s.stored else discard b s)
    else missed s

abbrev pub new_entry : ℕ → String → Value
new_entry now country =
    to_json (object (("value", str country) ∷ ("expiresAt", num (nat (now + ttl_ms))) ∷ []))

-- After the answer: memory first, then storage. A storage that throws ends in the `catch`.
abbrev pub remember : Browser → ℕ → String → State → Result Value × State
remember b now country s =
    let s' = record s { cached = str country } in
    if b.has_window
    then (if b.storage_works
        then (ok (str country), record s' { stored = some (ok (new_entry now country)) })
        else (ok null, s'))
    else (ok (str country), s')

abbrev pub take_text : Browser → ℕ → Result String → State → Result Value × State
take_text b now (thrown e) s = (ok null, s)
take_text b now (ok t) s = remember b now (trim t) s

-- The call of the service, which gives null where anything fails.
unfoldable pub ask_service : Browser → ℕ → Result CountryResponse → State → Result Value × State
ask_service b now (thrown e) s = (ok null, record s { fetches = s.fetches + 1 })
ask_service b now (ok r) s =
    let s' = record s { fetches = s.fetches + 1 } in
    if r.is_ok then take_text b now r.text s' else (ok null, s')

abbrev pub conclude : Browser → ℕ → Result CountryResponse → Found → Result Value × State
conclude b now answer (served v s) = (ok v, s)
conclude b now answer (missed s) = ask_service b now answer s
conclude b now answer (escaped e s) = (thrown e, s)

-- `getUserCountry()` at the time `now`, where the service would give `answer`.
unfoldable pub get_user_country :
    Browser → ℕ → Result CountryResponse → State → Result Value × State
unfolding look_up ask_service
get_user_country b now answer s =
    if is_truthy s.cached then (ok s.cached, s) else conclude b now answer (look_up b now s)
