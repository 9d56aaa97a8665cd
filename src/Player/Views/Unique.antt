-- ===== src/Player/Views/Unique.antt =====
-- How often a view is reported as a unique one.
use motionmesh.Base.{
  ℕ, ◌+◌, ◌≡◌, ◌≤◌, inl, inr, refl, sym, ◌∙◌, Bool, true, false, Option, none, some, List, [], ◌∷◌,
  ◌++◌, arith, leb, assign, show_nat, Bool-cases,
}
use motionmesh.Base.Lists.{All, All-append}
use motionmesh.Js.Value.{get, is_truthy}
use motionmesh.Player.Views.{
  Kind, heartbeat, play, pause, ended, seek, lock_key, settle_one, Posted, Pending, Viewer,
  is_unique_at, event_of, send_analytics_event, conclude_event, take_out, settle, on_play,
  on_time_update, answer_video_data, Event, id_changed, video_answered, country_found, played,
  paused, finished, seeked, time_updated, settled, step, run,
}
use mathlib.Core.List.{append-nil, append_assoc}

-- The state after some watching in which no view was reported as unique.
abbrev pub IsCommon : Posted → Type 0
IsCommon p = p.is_unique ≡ false

abbrev pub PostsCommon : List Posted → List Posted → Type 0
PostsCommon before after = (new : List Posted) × (after ≡ before ++ new) × All IsCommon new

abbrev pub StaysLocked : Viewer → Viewer → Type 0
StaysLocked s s' = (s'.unique_locked ≡ true) × PostsCommon s.posted s'.posted

StaysLocked-refl : (s : Viewer) → s.unique_locked ≡ true → StaysLocked s s
StaysLocked-refl s l = (l, ([], sym (append-nil _), tt))

is_unique_at-locked : (s : Viewer) (t : ℕ) → s.unique_locked ≡ true → is_unique_at s t ≡ false
is_unique_at-locked s t l = ground arith

send-StaysLocked :
    (kind : Kind) (t : ℕ) (s : Viewer)
    → s.unique_locked ≡ true
    → StaysLocked s (send_analytics_event kind t s)
unfolding send_analytics_event
send-StaysLocked kind t s l = elim (Bool-cases (is_truthy (get "analyticsToken" s.video_data))) [
  | inl k ↦ rw k (l, (event_of kind t s ∷ [], refl, (is_unique_at-locked s t l, tt)))
  | inr k ↦ rw k (StaysLocked-refl s l)
]

conclude-StaysLocked :
    (p : Pending) (is_answered : Bool) (now : ℕ) (s : Viewer)
    → s.unique_locked ≡ true
    → StaysLocked s (conclude_event p is_answered now s)
unfolding conclude_event
conclude-StaysLocked p false now s l = StaysLocked-refl s l
conclude-StaysLocked p true now s l = rw (is_unique_at-locked s p.time l) (StaysLocked-refl s l)

settle_one-StaysLocked :
    (o : Option (Pending × List Pending)) (is_answered : Bool) (now : ℕ) (s : Viewer)
    → s.unique_locked ≡ true
    → StaysLocked s (settle_one o is_answered now s)
settle_one-StaysLocked none is_answered now s l = StaysLocked-refl s l
settle_one-StaysLocked (some (p, rest)) is_answered now s l =
    conclude-StaysLocked p is_answered now (record s { pending = rest }) l

abbrev pub IsWatching : Event → Type 0
IsWatching (id_changed id now) = ⊥
IsWatching _ = Unit

step-StaysLocked :
    (e : Event) (s : Viewer) → IsWatching e → s.unique_locked ≡ true → StaysLocked s (step e s)
unfolding step answer_video_data on_play on_time_update settle
step-StaysLocked (id_changed id now) s w l = absurd w
step-StaysLocked (video_answered none) s w l = elim (Bool-cases s.is_loading) [
  | inl k ↦ rw k (StaysLocked-refl s l)
  | inr k ↦ rw k (StaysLocked-refl s l)
]
step-StaysLocked (video_answered (some v)) s w l = elim (Bool-cases s.is_loading) [
  | inl k ↦ rw k (StaysLocked-refl s l)
  | inr k ↦ rw k (StaysLocked-refl s l)
]
step-StaysLocked (country_found country) s w l = StaysLocked-refl s l
step-StaysLocked (played t) s w l = send-StaysLocked play t s l
step-StaysLocked (paused t) s w l = send-StaysLocked pause t s l
step-StaysLocked (finished t) s w l = send-StaysLocked ended t s l
step-StaysLocked (seeked t) s w l = send-StaysLocked seek t s l
step-StaysLocked (time_updated t) s w l =
    elim (Bool-cases (leb (s.last_heartbeat_time + 15000) t)) [
      | inl k ↦ rw k (send-StaysLocked heartbeat t s l)
      | inr k ↦ rw k (StaysLocked-refl s l)
    ]
step-StaysLocked (settled i is_answered now) s w l =
    settle_one-StaysLocked (take_out i s.pending) is_answered now s l

StaysLocked-trans : (s t u : Viewer) → StaysLocked s t → StaysLocked t u → StaysLocked s u
StaysLocked-trans s t u (l, (xs, e, h)) (m, (ys, f, k)) =
    (m, (xs ++ ys, f ∙ rw e (append_assoc s.posted xs ys), All-append IsCommon xs ys h k))

-- Once a unique view is locked, none of the events that follow is reported as unique, in whatever
-- order the requests end, until the player is given another video.
pub run-StaysLocked :
    (es : List Event) (s : Viewer)
    → All IsWatching es
    → s.unique_locked ≡ true
    → StaysLocked s (run es s)
unfolding run
run-StaysLocked [] s w l = StaysLocked-refl s l
run-StaysLocked (e ∷ es) s (w, ws) l =
    let (m, p) = step-StaysLocked e s w l in
    StaysLocked-trans s (step e s) (run es (step e s)) (m, p) (run-StaysLocked es (step e s) ws m)

-- What is reported of a position: the event, and at once the end of its request.
abbrev pub report_and_wait : Kind → ℕ → ℕ → Viewer → Viewer
report_and_wait kind t now s = settle 0 true now (send_analytics_event kind t s)

-- An event that is reported as unique and answered before anything else is sent locks the view,
-- and keeps the date of the answer for the video.
pub report_and_wait-locks :
    (kind : Kind) (t now : ℕ) (s : Viewer)
    → is_truthy (get "analyticsToken" s.video_data) ≡ true
    → s.pending ≡ []
    → is_unique_at s t ≡ true
    → s.storage_works ≡ true
    → (report_and_wait kind t now s) ≡ record s {
      posted = s.posted ++ event_of kind t s ∷ [];
      pending = [];
      unique_locked = true;
      storage = assign (lock_key s.video_tracking_id) (show_nat now) s.storage;
    }
unfolding settle send_analytics_event take_out conclude_event
report_and_wait-locks kind t now s k p u w = simp (k, p, u, w)

-- In a player that has a token and may still report a unique view, two events from the third
-- second on that are sent before an answer are both reported as unique: the lock is only set after
-- the answer.
pub send_analytics_event-twice :
    (kind kind' : Kind) (t t' : ℕ) (s : Viewer)
    → is_truthy (get "analyticsToken" s.video_data) ≡ true
    → s.unique_eligible ≡ true
    → s.unique_locked ≡ false
    → 3000 ≤ t
    → 3000 ≤ t'
    → (a : Posted) × (b : Posted) × (a.is_unique ≡ true)
      × (b.is_unique ≡ true)
      × ((send_analytics_event kind' t' (send_analytics_event kind t s)).posted
          ≡ s.posted ++ (a ∷ b ∷ []))
unfolding send_analytics_event
send_analytics_event-twice kind kind' t t' s k e l h h' = (
  event_of kind t s,
  event_of kind' t' s,
  ground arith,
  ground arith,
  rw (k, k) (append_assoc s.posted _ _),
)
