-- ===== src/Dashboard/Buckets/Sizes.antt =====
-- The groups of a bucket's page count each object once.
use motionmesh.Base.{
  ℕ, ◌+◌, ◌≡◌, refl, some, String, List, [], ◌∷◌, ◌++◌, arith, length, length-append, str_eq,
  Bool-cases, inl, inr,
}
use motionmesh.Dashboard.Buckets.{BucketObject, prefix_of, Groups, push, push_all, grouped_objects}
use motionmesh.Dashboard.Buckets.Table.{total_size_from, total_size, objects_total}

-- What the lines of the groups show, added up: the files and the sizes.
abbrev pub files_shown : Groups → ℕ
files_shown [] = 0
files_shown ((prefix, os) ∷ gs) = length os + files_shown gs

abbrev pub size_shown : Groups → ℕ
size_shown [] = 0
size_shown ((prefix, os) ∷ gs) = total_size os + size_shown gs

total_size_from-add :
    (m n : ℕ) (os : List BucketObject) → total_size_from (m + n) os ≡ m + total_size_from n os
unfolding total_size_from
total_size_from-add m n [] = refl
total_size_from-add m n (o ∷ os) =
    let e : m + n + o.size_bytes ≡ m + (n + o.size_bytes) = omega arith in
    rw e (total_size_from-add m (n + o.size_bytes) os)

total_size-cons :
    (o : BucketObject) (os : List BucketObject) → total_size (o ∷ os) ≡ o.size_bytes + total_size os
unfolding total_size total_size_from
total_size-cons o os =
    let e : 0 + o.size_bytes ≡ o.size_bytes + 0 = omega arith in
    rw e (total_size_from-add o.size_bytes 0 os)

total_size-concat :
    (os : List BucketObject) (o : BucketObject)
    → total_size (os ++ o ∷ []) ≡ total_size os + o.size_bytes
total_size-concat [] o =
    rw (total_size-cons o []) (unfold total_size total_size_from in omega arith)
total_size-concat (p ∷ os) o =
    rw (total_size-cons p (os ++ o ∷ []), total_size-cons p os, total_size-concat os o)
      (omega arith)

push-shown :
    (prefix : String) (o : BucketObject) (gs : Groups)
    → (files_shown (push prefix o gs) ≡ files_shown gs + 1)
      × (size_shown (push prefix o gs) ≡ size_shown gs + o.size_bytes)
unfolding push
push-shown prefix o [] =
    (refl, rw (total_size-cons o []) (unfold total_size total_size_from in omega arith))
push-shown prefix o ((name, os) ∷ gs) = elim (Bool-cases (str_eq name prefix)) [
  | inl k ↦ rw k (omega (arith, length-append os (o ∷ [])), omega (arith, total_size-concat os o))
  | inr k ↦ let (f, s) = push-shown prefix o gs in rw k (omega (arith, f), omega (arith, s))
]

push_all-shown :
    (os : List BucketObject) (gs : Groups)
    → (files_shown (push_all os gs) ≡ files_shown gs + length os)
      × (size_shown (push_all os gs) ≡ size_shown gs + total_size os)
unfolding push_all
push_all-shown [] gs = (omega arith, unfold total_size total_size_from in omega arith)
push_all-shown (o ∷ os) gs =
    let (f, s) = push-shown (prefix_of o.key) o gs in
    let (g, t) = push_all-shown os (push (prefix_of o.key) o gs) in
    (omega (arith, f, g), omega (arith, s, t, total_size-cons o os))

-- The files and the sizes that the groups show add up to the number of objects that the head of
-- the list shows, and to the size of all of them.
pub grouped_objects-shown :
    (objects : List BucketObject)
    → (files_shown (grouped_objects (some objects)) ≡ objects_total (some objects))
      × (size_shown (grouped_objects (some objects)) ≡ total_size objects)
unfolding grouped_objects
grouped_objects-shown objects =
    let (f, s) = push_all-shown objects [] in (omega (arith, f), omega (arith, s))
