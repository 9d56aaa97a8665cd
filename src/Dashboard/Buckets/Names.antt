-- ===== src/Dashboard/Buckets/Names.antt =====
-- Under which names the page of a bucket lists the objects.
use Prim.Native.Char.{Char, code}
use Prim.Native.String.append
use motionmesh.Base.{
  ◌≡◌, refl, ap, ◌∙◌, Option, none, some, String, ◌⧺◌, Bool-cases, inl, inr, if◌then◌else◌, ◌==◌,
  Bool, true, false, ◌||◌, Option-cases,
}
use motionmesh.Dashboard.Buckets.{through_last_slash, prefix_of}
use motionmesh.Dashboard.Buckets.Table.{text_length, substring_from, shown_name}

abbrev is_some : Option String → Bool
is_some none = false
is_some (some p) = true

abbrev pub IsFolderOf : String → Option String → Type 0
IsFolderOf key none = Unit
IsFolderOf key (some p) = p ⧺ substring_from (text_length p) key ≡ key

through_last_slash-IsFolderOf : (key : String) → IsFolderOf key (through_last_slash key)
unfolding through_last_slash substring_from
through_last_slash-IsFolderOf String.[] = tt
through_last_slash-IsFolderOf (String.◌∷◌ c s) =
    extended (through_last_slash s) (through_last_slash-IsFolderOf s)
  where
    extended :
        (o : Option String)
        → IsFolderOf s o
        → IsFolderOf (String.◌∷◌ c s) (elim o [
          | none ↦ if code c == b'/' then some (String.◌∷◌ c "") else none
          | some p ↦ some (String.◌∷◌ c p)
        ])
    extended (some p) h = append.cons c p _ ∙ ap (λ t. String.◌∷◌ c t) h
    extended none h = elim (Bool-cases (code c == b'/')) [
      | inl k ↦ rw k (append.cons c "" s ∙ ap (λ t. String.◌∷◌ c t) (append.nil s))
      | inr k ↦ rw k tt
    ]

shown_name-append :
    (key p : String)
    → through_last_slash key ≡ some p
    → prefix_of key ⧺ shown_name (prefix_of key) key ≡ key
unfolding prefix_of shown_name
shown_name-append key p h =
    let f = through_last_slash-IsFolderOf key in rw (prefix_of, h) (rw h at f)

-- Whether a key has a slash, told from its letters alone.
abbrev pub has_slash : String → Bool
has_slash String.[] = false
has_slash (String.◌∷◌ c s) = (code c == b'/') || has_slash s

has_slash-through_last_slash : (key : String) → has_slash key ≡ is_some (through_last_slash key)
unfolding through_last_slash
has_slash-through_last_slash String.[] = refl
has_slash-through_last_slash (String.◌∷◌ c s) =
    rw (has_slash-through_last_slash s) (either (through_last_slash s) (code c == b'/'))
  where
    either :
        (o : Option String) (b : Bool)
        → (b || is_some o)
          ≡ is_some (elim o [
            | none ↦ if b then some (String.◌∷◌ c "") else none
            | some p ↦ some (String.◌∷◌ c p)
          ])
    either none true = refl
    either none false = refl
    either (some p) true = refl
    either (some p) false = refl

shown_name-cut :
    (c : Char) (s : String)
    → through_last_slash (String.◌∷◌ c s) ≡ none
    → shown_name (prefix_of (String.◌∷◌ c s)) (String.◌∷◌ c s) ≡ s
unfolding prefix_of shown_name substring_from
shown_name-cut c s h = rw (prefix_of, h) refl

-- What the page leaves out of a key that is not empty, put before the name that it shows, gives
-- the key: for a key with a slash this is the name of its group. For a key without one it is
-- the first letter of the key: the group is called `/`, which is no part of the key, and the
-- name is cut by the length of that.
pub shown_name-prefix_of :
    (c : Char) (s : String)
    → let key = String.◌∷◌ c s in
      (if has_slash key then prefix_of key else String.◌∷◌ c "") ⧺ shown_name (prefix_of key) key
      ≡ key
shown_name-prefix_of c s =
    let key = String.◌∷◌ c s in
    let slash = has_slash-through_last_slash key in
    elim (Option-cases (through_last_slash key)) [
      | inl e ↦
          let no : has_slash key ≡ false = slash ∙ ap is_some e in
          rw (no, shown_name-cut c s e)
            (append.cons c "" s ∙ ap (λ t. String.◌∷◌ c t) (append.nil s))
      | inr (p, e) ↦
          let yes : has_slash key ≡ true = slash ∙ ap is_some e in
          rw yes (shown_name-append key p e)
    ]
