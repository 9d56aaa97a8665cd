-- ===== src/Player/Keys.antt =====
-- sdk/js/packages/player/src/utils/index.ts: which credentials the player's handler accepts. A
-- regular expression is a scan over the code points.
pub mod Jwt
use package.text.Mathlib.Text.{starts_with}
use motionmesh.Base.{
  ℕ, zero, suc, ◌-◌, Bool, true, false, ◌&&◌, ◌||◌, String, List, [], ◌∷◌, leb, ◌==◌, if◌then◌else◌,
  is_empty, codes,
}

-- `[A-Za-z0-9_-]`
abbrev pub is_segment_char : ℕ → Bool
is_segment_char c =
    (leb b'A' c && leb c b'Z')
    || (leb b'a' c && leb c b'z')
    || (leb b'0' c && leb c b'9')
    || c == b'_'
    || c == b'-'

-- The rest of the match, with `dots` dots to come; `begun` says that the segment has a character.
unfoldable pub match_segments : ℕ → Bool → List ℕ → Bool
match_segments zero begun [] = begun
match_segments (suc dots) begun [] = false
match_segments zero begun (c ∷ s) =
    let more = match_segments zero true s in if is_segment_char c then more else false
match_segments (suc dots) begun (c ∷ s) =
    let more = match_segments (suc dots) true s in
    let next = match_segments dots false s in
    if is_segment_char c then more else if c == b'.' then (if begun then next else false) else false

-- `/^[A-Za-z0-9_-]+\.[A-Za-z0-9_-]+\.[A-Za-z0-9_-]+$/.test(token)`
unfoldable pub is_probably_jwt : String → Bool
unfolding match_segments
is_probably_jwt token = if is_empty token then false else match_segments 2 false (codes token)

unfoldable pub verify_api_key_signature : String → Bool
verify_api_key_signature key =
    if is_empty key
    then false
    else if starts_with key "mot_live_"
    then true
    else if starts_with key "mot_test_"
    then true
    else false
