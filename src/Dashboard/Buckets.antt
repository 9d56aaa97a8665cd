-- ===== src/Dashboard/Buckets.antt =====
-- client/dashboard/src/app/dashboard/buckets/[id]/page.tsx: how the page of a bucket groups the
-- bucket's objects by prefix, and which groups are open. A group's name ends in a slash, so it is
-- no name that an object has from elsewhere, and names stay in the order of insertion.
pub mod Groups
pub mod Table
pub mod Names
pub mod Sizes
pub mod Editing
use Prim.Native.Char.{code}
use Prim.Native.String
use motionmesh.Base.{
  ℕ, Bool, true, false, Option, none, some, String, List, [], ◌∷◌, ◌++◌, if◌then◌else◌, ◌==◌,
  str_eq,
}
use motionmesh.Js.Value.{Value}

pub record BucketObject : Type 0 where
  pub id : String
  pub key : String
  pub size_bytes : ℕ
  pub content_type : String
  pub uploaded_at : Value

-- A text up to its last slash, if it has one: `key.lastIndexOf('/')` and `key.substring(0, i + 1)`.
unfoldable pub through_last_slash : String → Option String
through_last_slash String.[] = none
through_last_slash (String.◌∷◌ c s) = elim (through_last_slash s) [
  | some p ↦ some (String.◌∷◌ c p)
  | none ↦ if code c == b'/' then some (String.◌∷◌ c String.[]) else none
]

unfoldable pub prefix_of : String → String
unfolding through_last_slash
prefix_of key = elim (through_last_slash key) [ none ↦ "/" | some p ↦ p ]

abbrev pub Groups : Type 0
Groups = List (String × List BucketObject)

-- `if (!groups[prefix]) groups[prefix] = []; groups[prefix].push(obj)`
unfoldable pub push : String → BucketObject → Groups → Groups
push prefix o [] = (prefix, o ∷ []) ∷ []
push prefix o ((name, os) ∷ gs) =
    let rest = push prefix o gs in
    if str_eq name prefix then (name, os ++ o ∷ []) ∷ gs else (name, os) ∷ rest

-- The loop over the objects.
unfoldable pub push_all : List BucketObject → Groups → Groups
push_all [] gs = gs
push_all (o ∷ os) gs = push_all os (push (prefix_of o.key) o gs)

-- `groupedObjects`, before and after the objects are there.
unfoldable pub grouped_objects : Option (List BucketObject) → Groups
grouped_objects none = []
grouped_objects (some os) = push_all os []

-- A set of prefixes, each once.
unfoldable pub has : String → List String → Bool
has p [] = false
has p (q ∷ qs) = let rest = has p qs in if str_eq q p then true else rest

unfoldable pub delete : String → List String → List String
delete p [] = []
delete p (q ∷ qs) = let rest = delete p qs in if str_eq q p then rest else q ∷ rest

-- `togglePrefix(prefix)`
unfoldable pub toggle_prefix : String → List String → List String
toggle_prefix p s = if has p s then delete p s else s ++ p ∷ []
