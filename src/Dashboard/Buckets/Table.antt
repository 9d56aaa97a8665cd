-- ===== src/Dashboard/Buckets/Table.antt =====
-- client/dashboard/src/app/dashboard/buckets/[id]/page.tsx: what the page lists of the objects. Sizes
-- stand as numbers, before `formatBytes`, and dates as what `new Date(text).getTime()` gives, which
-- is given as whole milliseconds. A text is cut by code points.
use motionmesh.Base.{
  ℕ, zero, suc, ◌+◌, Bool, Option, none, some, String, List, [], ◌∷◌, ◌++◌, if◌then◌else◌, leb,
  length,
}
use motionmesh.Js.Value.{Value}
use motionmesh.Dashboard.Buckets.{BucketObject, Groups, grouped_objects, has}

abbrev pub text_length : String → ℕ
text_length String.[] = 0
text_length (String.◌∷◌ c s) = suc (text_length s)

-- `text.substring(n)`
unfoldable pub substring_from : ℕ → String → String
substring_from zero s = s
substring_from (suc n) String.[] = String.[]
substring_from (suc n) (String.◌∷◌ c s) = substring_from n s

-- `obj.key.substring(prefix.length)`
unfoldable pub shown_name : String → String → String
shown_name prefix key = substring_from (text_length prefix) key

-- `objs.reduce((sum, o) => sum + (o.sizeBytes || 0), 0)`
unfoldable pub total_size_from : ℕ → List BucketObject → ℕ
total_size_from sum [] = sum
total_size_from sum (o ∷ os) = total_size_from (sum + o.size_bytes) os

unfoldable pub total_size : List BucketObject → ℕ
total_size os = total_size_from 0 os

abbrev pub maximum : ℕ → ℕ → ℕ
maximum m n = if leb m n then n else m

-- A line of the table: a group with the number of its files, or an object of an open group.
pub data Line : Type 0 where
  folder : String → Bool → ℕ → ℕ → ℕ → Line
  file : String → String → ℕ → ℕ → Line

-- What the page shows below the title of the list.
pub data Listing : Type 0 where
  loading : Listing
  empty : Listing
  table : List Line → Listing

module _ (time_of : Value → ℕ) where
  -- `Math.max` of the dates of a group, which has an object.
  unfoldable pub most_recent : List BucketObject → ℕ
  most_recent [] = 0
  most_recent (o ∷ os) = maximum (time_of o.uploaded_at) (most_recent os)

  unfoldable pub file_lines : String → List BucketObject → List Line
  file_lines prefix [] = []
  file_lines prefix (o ∷ os) =
      file (shown_name prefix o.key) o.content_type o.size_bytes (time_of o.uploaded_at)
      ∷ file_lines prefix os

  unfoldable pub group_lines : List String → String → List BucketObject → List Line
  group_lines expanded prefix os =
      folder prefix (has prefix expanded) (length os) (total_size os) (most_recent os)
      ∷ (if has prefix expanded then file_lines prefix os else [])

  unfoldable pub table_lines : List String → Groups → List Line
  table_lines expanded [] = []
  table_lines expanded ((prefix, os) ∷ gs) =
      group_lines expanded prefix os ++ table_lines expanded gs

  abbrev pub listed : List String → Groups → Listing
  listed expanded [] = empty
  listed expanded (g ∷ gs) = table (table_lines expanded (g ∷ gs))

  unfoldable pub listing : Bool → List String → Option (List BucketObject) → Listing
  listing is_loading expanded objects =
      if is_loading then loading else listed expanded (grouped_objects objects)

-- `objectsData?.length || 0`
abbrev pub objects_total : Option (List BucketObject) → ℕ
objects_total none = 0
objects_total (some os) = length os
