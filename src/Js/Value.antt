-- ===== src/Js/Value.antt =====
-- JavaScript values that come from or go to JSON, and the conversions that the code makes of
-- them: truthiness, property access, `String(v)`, `Number(v)` and `JSON.stringify`.
use motionmesh.Base.{
  Bool, true, false, Option, none, some, List, [], ◌∷◌, String, not, if◌then◌else◌, is_empty,
  lookup, assign, erase, ◌⧺◌,
}
use motionmesh.Js.Number.{Number, nan, nat, is_truthy_number, show_number, text_to_number}

mutual
  pub data Value : Type 0 where
    undefined : Value
    null : Value
    bool : Bool → Value
    num : Number → Value
    str : String → Value
    arr : Values → Value
    obj : Members → Value

  pub data Values : Type 0 where
    stop : Values
    more : Value → Values → Values

  pub data Members : Type 0 where
    bare : Members
    member : String → Value → Members → Members

abbrev pub to_members : List (String × Value) → Members
to_members [] = bare
to_members ((k, v) ∷ fs) = member k v (to_members fs)

abbrev pub to_values : List Value → Values
to_values [] = stop
to_values (v ∷ vs) = more v (to_values vs)

abbrev pub entries : Members → List (String × Value)
entries bare = []
entries (member k v fs) = (k, v) ∷ entries fs

abbrev pub elements : Values → List Value
elements stop = []
elements (more v vs) = v ∷ elements vs

-- An object literal.
abbrev pub object : List (String × Value) → Value
object fs = obj (to_members fs)

abbrev pub is_truthy : Value → Bool
is_truthy undefined = false
is_truthy null = false
is_truthy (bool b) = b
is_truthy (num n) = is_truthy_number n
is_truthy (str s) = not (is_empty s)
is_truthy (arr vs) = true
is_truthy (obj fs) = true

-- `a || b`
abbrev pub or : Value → Value → Value
or a b = if is_truthy a then a else b

-- `a ?? b`
abbrev pub or_nullish : Value → Value → Value
or_nullish undefined b = b
or_nullish null b = b
or_nullish a b = a

abbrev pub is_nullish : Value → Bool
is_nullish undefined = true
is_nullish null = true
is_nullish _ = false

abbrev pub or_undefined : Option Value → Value
or_undefined none = undefined
or_undefined (some v) = v

-- `v?.k`, and `v.k` where `v` is known not to be null or undefined. The names that the code asks
-- for are no properties of texts, numbers or arrays.
abbrev pub get : String → Value → Value
get k (obj fs) = or_undefined (lookup k (entries fs))
get k _ = undefined

-- `{ ...v, [k]: x }` and `const { [k]: _, ...rest } = v` on an object.
abbrev pub with_field : String → Value → Value → Value
with_field k x (obj fs) = object (assign k x (entries fs))
with_field k x _ = object ((k, x) ∷ [])

abbrev pub without_field : String → Value → Value
without_field k (obj fs) = object (erase k (entries fs))
without_field k _ = object []

abbrev pub is_array : Value → Bool
is_array (arr vs) = true
is_array _ = false

abbrev pub show_bool : Bool → String
show_bool true = "true"
show_bool false = "false"

-- How a member of a joined array is shown: null and undefined are empty.
unfoldable mutual
  pub item_string : Value → String
  item_string undefined = ""
  item_string null = ""
  item_string (bool b) = show_bool b
  item_string (num n) = show_number n
  item_string (str s) = s
  item_string (arr vs) = join_items vs
  item_string (obj fs) = "[object Object]"

  -- `vs.join(",")`
  pub join_items : Values → String
  join_items stop = ""
  join_items (more v vs) = item_string v ⧺ join_rest vs

  pub join_rest : Values → String
  join_rest stop = ""
  join_rest (more v vs) = "," ⧺ (item_string v ⧺ join_rest vs)

-- `vs.join(sep)`
abbrev pub join_after : String → Values → String
join_after sep stop = ""
join_after sep (more v vs) = sep ⧺ (item_string v ⧺ join_after sep vs)

abbrev pub join : String → Values → String
join sep stop = ""
join sep (more v vs) = item_string v ⧺ join_after sep vs

-- `String(v)`, also in a template literal.
abbrev pub to_string : Value → String
to_string undefined = "undefined"
to_string null = "null"
to_string (str s) = s
to_string v = item_string v

-- `Number(v)`
abbrev pub to_number : Value → Number
to_number undefined = nan
to_number null = nat 0
to_number (bool true) = nat 1
to_number (bool false) = nat 0
to_number (num n) = n
to_number (str s) = text_to_number s
to_number (arr vs) = text_to_number (item_string (arr vs))
to_number (obj fs) = nan

abbrev pub json_number : Number → Value
json_number nan = null
json_number n = num n

-- What is left of a value when `JSON.stringify` writes it and `JSON.parse` reads it: undefined
-- fields go, undefined members and NaN become null.
unfoldable mutual
  pub to_json : Value → Value
  to_json undefined = null
  to_json null = null
  to_json (bool b) = bool b
  to_json (num n) = json_number n
  to_json (str s) = str s
  to_json (arr vs) = arr (values_to_json vs)
  to_json (obj fs) = obj (members_to_json fs)

  pub values_to_json : Values → Values
  values_to_json stop = stop
  values_to_json (more v vs) = more (to_json v) (values_to_json vs)

  pub members_to_json : Members → Members
  members_to_json bare = bare
  members_to_json (member k undefined fs) = members_to_json fs
  members_to_json (member k v fs) = member k (to_json v) (members_to_json fs)
