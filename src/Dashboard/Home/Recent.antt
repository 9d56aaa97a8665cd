-- ===== src/Dashboard/Home/Recent.antt =====
-- Which entries the feed of the home page shows.
use mathlib.Core.List.{Perm}
use mathlib.Core.List.Perm
use motionmesh.Base.{
  map, ℕ, zero, suc, ◌≤◌, String, List, [], ◌∷◌, ◌++◌, arith, leb, length, take, drop, length-take,
  take-append-drop, Bool-cases, inl, inr,
}
use motionmesh.Base.Lists.{All}
use motionmesh.Js.Value.{Value}
use motionmesh.Dashboard.Home.{
  Entry, all_entries, insert, sort, recent_activity, video_entry, bucket_entry, key_entry,
}

module _ (time_of : Value → ℕ) where
  -- Not newer than an entry.
  abbrev pub IsOlder : Entry → Entry → Type 0
  IsOlder e f = time_of f.timestamp ≤ time_of e.timestamp

  -- Each entry is at least as new as all that follow.
  abbrev pub IsSorted : List Entry → Type 0
  IsSorted [] = Unit
  IsSorted (e ∷ es) = All (IsOlder e) es × IsSorted es

  insert-perm : (e : Entry) (es : List Entry) → Perm (insert time_of e es) (e ∷ es)
  unfolding insert
  insert-perm e [] = Perm.refl _
  insert-perm e (f ∷ fs) = elim (Bool-cases (leb (time_of f.timestamp) (time_of e.timestamp))) [
    | inl k ↦ rw k (Perm.refl _)
    | inr k ↦ rw k (Perm.trans (Perm.cons f (insert-perm e fs)) (Perm.swap e f fs))
  ]

  pub sort-perm : (es : List Entry) → Perm (sort time_of es) es
  unfolding sort
  sort-perm [] = Perm.refl _
  sort-perm (e ∷ es) = Perm.trans (insert-perm e (sort time_of es)) (Perm.cons e (sort-perm es))

  All-insert :
      (g e : Entry) (es : List Entry)
      → IsOlder g e
      → All (IsOlder g) es
      → All (IsOlder g) (insert time_of e es)
  unfolding insert
  All-insert g e [] h k = (h, tt)
  All-insert g e (f ∷ fs) h (k, ks) =
      elim (Bool-cases (leb (time_of f.timestamp) (time_of e.timestamp))) [
        | inl l ↦ rw l (h, (k, ks))
        | inr l ↦ rw l (k, All-insert g e fs h ks)
      ]

  All-IsOlder :
      (e f : Entry) (fs : List Entry) → IsOlder e f → All (IsOlder f) fs → All (IsOlder e) fs
  All-IsOlder e f [] h k = tt
  All-IsOlder e f (g ∷ fs) h (k, ks) = (omega (arith, h, k), All-IsOlder e f fs h ks)

  insert-IsSorted : (e : Entry) (es : List Entry) → IsSorted es → IsSorted (insert time_of e es)
  unfolding insert
  insert-IsSorted e [] s = (tt, tt)
  insert-IsSorted e (f ∷ fs) (a, s) =
      elim (Bool-cases (leb (time_of f.timestamp) (time_of e.timestamp))) [
        | inl l ↦ let o : IsOlder e f = ground arith in rw l ((o, All-IsOlder e f fs o a), (a, s))
        | inr l ↦
            let o : IsOlder f e = ground arith in
            rw l (All-insert f e fs o a, insert-IsSorted e fs s)
      ]

  sort-IsSorted : (es : List Entry) → IsSorted (sort time_of es)
  unfolding sort
  sort-IsSorted [] = tt
  sort-IsSorted (e ∷ es) = insert-IsSorted e (sort time_of es) (sort-IsSorted es)

  All-drop : (P : Entry → Type 0) (n : ℕ) (es : List Entry) → All P es → All P (drop n es)
  All-drop P zero es h = h
  All-drop P (suc n) [] h = tt
  All-drop P (suc n) (e ∷ es) (h, hs) = All-drop P n es hs

  take-newest :
      (n : ℕ) (es : List Entry) → IsSorted es → All (λ e. All (IsOlder e) (drop n es)) (take n es)
  take-newest zero es s = tt
  take-newest (suc n) [] s = tt
  take-newest (suc n) (e ∷ es) (a, s) = (All-drop (IsOlder e) n es a, take-newest n es s)

  -- The feed shows at most five entries, and they are the newest: with the ones that are left out
  -- they are all the entries of the videos, the buckets and the keys, each as often as it is there,
  -- and none that is left out is newer than one that is shown.
  pub recent_activity-newest :
      (now : String) (videos buckets api_keys : List Value)
      → (left_out : List Entry) × (length (recent_activity time_of now videos buckets api_keys) ≤ 5)
        × Perm (recent_activity time_of now videos buckets api_keys ++ left_out) (
            map video_entry videos
            ++ (map (bucket_entry now) buckets ++ map (key_entry now) api_keys))
        × All (λ e. All (IsOlder e) left_out) (recent_activity time_of now videos buckets api_keys)
  unfolding recent_activity all_entries
  recent_activity-newest now videos buckets api_keys =
      let es = all_entries now videos buckets api_keys in
      let sorted = sort time_of es in
      (
        drop 5 sorted,
        omega (arith, length-take 5 sorted),
        rw (take-append-drop 5 sorted) (sort-perm es),
        take-newest 5 sorted (sort-IsSorted es),
      )
