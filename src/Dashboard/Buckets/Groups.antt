-- ===== src/Dashboard/Buckets/Groups.antt =====
-- The groups of a bucket's page hold each object once, under its prefix, in the given order.
use package.text.Mathlib.TextEquality.{eq_iff}
use package.text.Mathlib.TextPositions.{eq_refl}
use mathlib.Core.List.{append-nil, append_assoc}
use motionmesh.Base.{
  ◌≡◌, refl, ap, sym, ◌∙◌, true, false, not, Option, none, some, String, List, [], ◌∷◌, ◌++◌, arith,
  if◌then◌else◌, str_eq, lookup, Bool-cases, inl, inr,
}
use motionmesh.Dashboard.Buckets.{
  BucketObject, prefix_of, Groups, push, push_all, grouped_objects, has, delete, toggle_prefix,
}

-- The objects under a prefix.
abbrev pub under : String → List BucketObject → List BucketObject
under p [] = []
under p (o ∷ os) = let rest = under p os in if str_eq (prefix_of o.key) p then o ∷ rest else rest

-- A group with more objects; with none, a missing group stays missing.
abbrev pub extend : Option (List BucketObject) → List BucketObject → Option (List BucketObject)
extend none [] = none
extend none (o ∷ os) = some (o ∷ os)
extend (some xs) os = some (xs ++ os)

extend-nil : (g : Option (List BucketObject)) → extend g [] ≡ g
extend-nil none = refl
extend-nil (some xs) = ap some (append-nil xs)

extend-extend :
    (g : Option (List BucketObject)) (o : BucketObject) (os : List BucketObject)
    → extend (extend g (o ∷ [])) os ≡ extend g (o ∷ os)
extend-extend none o os = refl
extend-extend (some xs) o os = ap some (append_assoc xs (o ∷ []) os)

lookup-push_same :
    (p : String) (o : BucketObject) (gs : Groups)
    → lookup p (push p o gs) ≡ extend (lookup p gs) (o ∷ [])
unfolding push
lookup-push_same p o [] = rw (eq_refl p) refl
lookup-push_same p o ((name, os) ∷ gs) = ground (arith, lookup-push_same p o gs)

lookup-push_other :
    (p q : String) (o : BucketObject) (gs : Groups)
    → str_eq q p ≡ false
    → lookup p (push q o gs) ≡ lookup p gs
unfolding push
lookup-push_other p q o [] n = rw n refl
lookup-push_other p q o ((name, os) ∷ gs) n =
    ground (arith, lookup-push_other p q o gs n, eq_iff name q)

lookup-push_all :
    (p : String) (os : List BucketObject) (gs : Groups)
    → lookup p (push_all os gs) ≡ extend (lookup p gs) (under p os)
unfolding push_all
lookup-push_all p [] gs = sym (extend-nil (lookup p gs))
lookup-push_all p (o ∷ os) gs = elim (Bool-cases (str_eq (prefix_of o.key) p)) [
  | inl k ↦
      let same : prefix_of o.key ≡ p = ground (arith, eq_iff (prefix_of o.key) p) in
      lookup-push_all p os (push (prefix_of o.key) o gs)
      ∙ ap (λ q. extend (lookup p (push q o gs)) (under p os)) same
      ∙ ap (λ g. extend g (under p os)) (lookup-push_same p o gs)
      ∙ extend-extend (lookup p gs) o (under p os)
      ∙ rw k refl
  | inr k ↦
      lookup-push_all p os (push (prefix_of o.key) o gs)
      ∙ ap (λ g. extend g (under p os)) (lookup-push_other p (prefix_of o.key) o gs k)
      ∙ rw k refl
]

-- The group of a prefix holds exactly the objects whose key has that prefix, each as often as the
-- bucket lists it and in that order; a prefix that no object has is no group.
pub grouped_objects-lookup :
    (p : String) (os : List BucketObject)
    → lookup p (grouped_objects (some os)) ≡ extend none (under p os)
unfolding grouped_objects
grouped_objects-lookup p os = lookup-push_all p os []

has-delete_same : (p : String) (s : List String) → has p (delete p s) ≡ false
unfolding has delete
has-delete_same p [] = refl
has-delete_same p (q ∷ qs) = ground (arith, has-delete_same p qs)

has-delete_other :
    (p q : String) (s : List String) → str_eq p q ≡ false → has q (delete p s) ≡ has q s
unfolding has delete
has-delete_other p q [] n = refl
has-delete_other p q (r ∷ s) n =
    ground (arith, has-delete_other p q s n, eq_iff r p, eq_iff r q, eq_iff p q)

pub has-concat :
    (p q : String) (s : List String) → has p (s ++ q ∷ []) ≡ (if has p s then true else str_eq q p)
unfolding has
has-concat p q [] = ground arith
has-concat p q (r ∷ s) = ground (arith, has-concat p q s)

-- A toggle of a prefix opens its group where it is shut and shuts it where it is open, and leaves
-- every other group as it is.
pub toggle_prefix-has :
    (p q : String) (s : List String)
    → has q (toggle_prefix p s) ≡ (if str_eq p q then not (has q s) else has q s)
unfolding toggle_prefix
toggle_prefix-has p q s = elim (Bool-cases (str_eq p q)) [
  | inl k ↦
      let same : p ≡ q = ground (arith, eq_iff p q) in
      ground (arith, has-delete_same p s, has-concat q p s, eq_refl q)
  | inr k ↦ ground (arith, has-delete_other p q s k, has-concat q p s)
]
