-- ===== src/Http/Query.antt =====
-- `URLSearchParams`: a list of names and values, and its form encoding.
use Prim.Native.Char.{Char, code}
use motionmesh.Base.{
  ℕ, ◌+◌, ◌/◌, ◌%◌, ◌≡◌, refl, Bool, ◌&&◌, ◌||◌, List, [], ◌∷◌, ◌++◌, String, ltb, leb, ◌==◌,
  if◌then◌else◌, digit, ◌⧺◌,
}

abbrev pub Query : Type 0
Query = List (String × String)

-- One hexadecimal digit, below 16.
hex : ℕ → String
hex n =
    if ltb n 10
    then digit n
    else if n == 10
    then "A"
    else if n == 11
    then "B"
    else if n == 12
    then "C"
    else if n == 13
    then "D"
    else if n == 14
    then "E"
    else "F"

percent_byte : ℕ → String
unfolding hex
percent_byte b = "%" ⧺ (hex (b / 16) ⧺ hex (b % 16))

-- The bytes of the UTF-8 of a code point.
utf8 : ℕ → List ℕ
utf8 n =
    if ltb n 128
    then n ∷ []
    else if ltb n 2048
    then (192 + n / 64) ∷ (128 + n % 64) ∷ []
    else if ltb n 65536
    then (224 + n / 4096) ∷ (128 + (n / 64) % 64) ∷ (128 + n % 64) ∷ []
    else (240 + n / 262144) ∷ (128 + (n / 4096) % 64) ∷ (128 + (n / 64) % 64) ∷ (128 + n % 64) ∷ []

percent_bytes : List ℕ → String
percent_bytes [] = ""
percent_bytes (b ∷ bs) = percent_byte b ⧺ percent_bytes bs

abbrev is_alphanumeric : ℕ → Bool
is_alphanumeric c =
    (leb b'0' c && leb c b'9') || (leb b'A' c && leb c b'Z') || (leb b'a' c && leb c b'z')

-- The characters that a form encoding keeps.
abbrev is_kept : ℕ → Bool
is_kept c = is_alphanumeric c || c == b'*' || c == b'-' || c == b'.' || c == b'_'

encode_char : Char → String
encode_char c =
    if is_kept (code c)
    then String.◌∷◌ c String.[]
    else if code c == 32
    then "+"
    else percent_bytes (utf8 (code c))

unfoldable pub encode : String → String
unfolding encode_char percent_bytes percent_byte utf8 digit
encode String.[] = ""
encode (String.◌∷◌ c s) = encode_char c ⧺ encode s

-- The characters that `encodeURIComponent` keeps.
abbrev is_uri_kept : ℕ → Bool
is_uri_kept c =
    is_alphanumeric c
    || c == b'-'
    || c == b'_'
    || c == b'.'
    || c == b'!'
    || c == b'~'
    || c == b'*'
    || c == 39
    || c == b'('
    || c == b')'

encode_uri_char : Char → String
encode_uri_char c =
    if is_uri_kept (code c) then String.◌∷◌ c String.[] else percent_bytes (utf8 (code c))

-- `encodeURIComponent(text)`
unfoldable pub encode_uri_component : String → String
unfolding encode_uri_char percent_bytes percent_byte utf8 digit
encode_uri_component String.[] = ""
encode_uri_component (String.◌∷◌ c s) = encode_uri_char c ⧺ encode_uri_component s

encode_pair : String × String → String
encode_pair (k, v) = encode k ⧺ ("=" ⧺ encode v)

encode_rest : Query → String
encode_rest [] = ""
encode_rest (p ∷ q) = "&" ⧺ (encode_pair p ⧺ encode_rest q)

-- `params.toString()`
unfoldable pub query_string : Query → String
unfolding encode_pair encode_rest encode
query_string [] = ""
query_string (p ∷ q) = encode_pair p ⧺ encode_rest q

-- `params.append(k, v)`
abbrev pub append : String → String → Query → Query
append k v q = q ++ (k, v) ∷ []

-- `if (test) params.append(k, v)`
abbrev pub append_if : Bool → String → String → Query → Query
append_if test k v q = if test then append k v q else q

query_string_test :
    query_string (("external_user_id", "a b&é") ∷ ("limit", "10") ∷ [])
    ≡ "external_user_id=a+b%26%C3%A9&limit=10"
unfolding query_string
query_string_test = refl

encode_uri_component_test : encode_uri_component "a b/é" ≡ "a%20b%2F%C3%A9"
unfolding encode_uri_component
encode_uri_component_test = refl
