-- ===== src/Player/Views/Loading.antt =====
-- Which video a player loads.
use motionmesh.Base.{
  ◌≡◌, refl, ap, ◌∙◌, ◌++◌, inl, inr, Bool-cases, ℕ, true, false, Option, some, none, String, [],
  ◌∷◌, is_empty, str_eq, if◌then◌else◌,
}
use motionmesh.Js.Value.{Value}
use motionmesh.Js.Number.{Number, whole, nan, nat, subtract}
use motionmesh.Player.Views.{
  Viewer, is_old, judge_lock, read_lock, init_view_lock, fetch_video_data, answer_video_data,
  run_effects, change_id,
}

-- A step that only touches the lock of views.
abbrev Keeps : Viewer → Viewer → Type 0
Keeps s s' =
    (s'.video_tracking_id ≡ s.video_tracking_id)
    × (s'.is_loading ≡ s.is_loading)
    × (s'.fetched ≡ s.fetched)

judge_lock-Keeps :
    (key : String) (now : ℕ) (s : Viewer) (n : Number) → Keeps s (judge_lock key now s n)
judge_lock-Keeps key now s nan = (refl, refl, refl)
judge_lock-Keeps key now s (whole n) = elim (Bool-cases (is_old (subtract (nat now) (whole n)))) [
  | inl k ↦ rw k (refl, refl, refl)
  | inr k ↦ rw k (refl, refl, refl)
]

read_lock-Keeps :
    (key : String) (now : ℕ) (s : Viewer) (o : Option String) → Keeps s (read_lock key now s o)
read_lock-Keeps key now s none = (refl, refl, refl)
read_lock-Keeps key now s (some raw) = elim (Bool-cases (is_empty raw)) [
  | inl k ↦ rw k (refl, refl, refl)
  | inr k ↦ rw k (judge_lock-Keeps key now s _)
]

init_view_lock-Keeps : (now : ℕ) (s : Viewer) → Keeps s (init_view_lock now s)
unfolding init_view_lock
init_view_lock-Keeps now s = elim (Bool-cases (is_empty s.video_tracking_id)) [
  | inl e ↦ rw e (refl, refl, refl)
  | inr e ↦ elim (Bool-cases s.storage_works) [
    | inl w ↦ simp (e, w) (read_lock-Keeps _ now _ _)
    | inr w ↦ rw (e, w) (refl, refl, refl)
  ]
]

fetch-when_loading : (s : Viewer) → s.is_loading ≡ true → fetch_video_data s ≡ s
unfolding fetch_video_data
fetch-when_loading s l = rw l refl

fetch-when_idle :
    (s : Viewer)
    → s.is_loading ≡ false
    → (fetch_video_data s).fetched ≡ s.fetched ++ s.video_tracking_id ∷ []
unfolding fetch_video_data
fetch-when_idle s l = rw l refl

run_effects-loading :
    (now : ℕ) (s : Viewer) → s.is_loading ≡ true → run_effects now s ≡ init_view_lock now s
unfolding run_effects
run_effects-loading now s l =
    let (same, loading, fetched) = init_view_lock-Keeps now s in
    elim (Bool-cases (is_empty (init_view_lock now s).video_tracking_id)) [
      | inl e ↦ simp e
      | inr e ↦ simp (e, fetch-when_loading (init_view_lock now s) (loading ∙ l))
    ]

run_effects-idle :
    (now : ℕ) (s : Viewer)
    → s.is_loading ≡ false
    → is_empty s.video_tracking_id ≡ false
    → (run_effects now s).fetched ≡ s.fetched ++ s.video_tracking_id ∷ []
unfolding run_effects
run_effects-idle now s l n =
    let (same, loading, fetched) = init_view_lock-Keeps now s in
    let given : is_empty (init_view_lock now s).video_tracking_id ≡ false = ap is_empty same ∙ n in
    let asked = fetch-when_idle (init_view_lock now s) (loading ∙ l) in
    simp given (asked ∙ rw (fetched, same) refl)

change_id-other :
    (id : String) (now : ℕ) (s : Viewer)
    → str_eq id s.video_tracking_id ≡ false
    → change_id id now s ≡ run_effects now (record s { video_tracking_id = id })
unfolding change_id
change_id-other id now s d = rw d refl

-- A player that is given another id, which is not empty, asks for its video at once, unless it is
-- loading: then it does not ask for it.
pub change_id-fetched :
    (id : String) (now : ℕ) (s : Viewer)
    → str_eq id s.video_tracking_id ≡ false
    → is_empty id ≡ false
    → (change_id id now s).fetched ≡ (if s.is_loading then s.fetched else s.fetched ++ id ∷ [])
change_id-fetched id now s d n =
    let t = record s { video_tracking_id = id } in
    let (same, loading, fetched) = init_view_lock-Keeps now t in
    elim (Bool-cases s.is_loading) [
      | inl l ↦
          ap Viewer.fetched (change_id-other id now s d ∙ run_effects-loading now t l)
          ∙ fetched
          ∙ rw l refl
      | inr l ↦
          ap Viewer.fetched (change_id-other id now s d) ∙ run_effects-idle now t l n ∙ rw l refl
    ]

-- A player that is given another video while it is loading asks for nothing: when the request of
-- the first video is answered, it shows the first video under the second one's id, has stopped
-- loading, and has sent no request for the second.
pub change_id-while_loading :
    (id : String) (now : ℕ) (answer : Value) (s : Viewer)
    → s.is_loading ≡ true
    → str_eq id s.video_tracking_id ≡ false
    → let s' = answer_video_data (some answer) (change_id id now s) in
      (s'.video_tracking_id ≡ id)
      × (s'.video_data ≡ answer)
      × (s'.is_loading ≡ false)
      × (s'.fetched ≡ s.fetched)
unfolding answer_video_data
change_id-while_loading id now answer s l d =
    let t = record s { video_tracking_id = id } in
    let (same, loading, fetched) = init_view_lock-Keeps now t in
    rw (change_id-other id now s d, run_effects-loading now t l) (same, refl, refl, fetched)
