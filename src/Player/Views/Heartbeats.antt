-- ===== src/Player/Views/Heartbeats.antt =====
-- How far apart the heartbeats of a playback are.
use motionmesh.Base.{
  ℕ, ◌+◌, ◌<◌, ◌≤◌, ◌≡◌, inl, inr, refl, sym, ap, ◌∙◌, true, false, List, [], ◌∷◌, ◌++◌, arith, leb,
  Bool-cases,
}
use motionmesh.Base.Lists.{All}
use mathlib.Core.Path.{subst}
use mathlib.Core.List.{append-nil, append_assoc}
use motionmesh.Js.Value.{get, is_truthy}
use motionmesh.Player.Views.{
  heartbeat, Posted, Viewer, event_of, send_analytics_event, on_time_update,
}

-- What the player does while it plays on: one call of `onTimeUpdate` after the other.
pub play_on : List ℕ → Viewer → Viewer
play_on [] s = s
play_on (t ∷ ts) s = play_on ts (on_time_update t s)

-- Heartbeats, each 15 seconds or more after the one before, the first after the position `last`.
abbrev pub AreSpaced : ℕ → List Posted → Type 0
AreSpaced last [] = Unit
AreSpaced last (p ∷ ps) =
    (p.kind ≡ heartbeat) × (last + 15000 ≤ p.current_time) × AreSpaced p.current_time ps

abbrev pub AllBelow : ℕ → List ℕ → Type 0
AllBelow mark ts = All (λ t. t < mark) ts

abbrev pub HasToken : Viewer → Type 0
HasToken s = is_truthy (get "analyticsToken" s.video_data) ≡ true

on_time_update-beats :
    (t : ℕ) (s : Viewer)
    → HasToken s
    → leb (s.last_heartbeat_time + 15000) t ≡ true
    → (on_time_update t s).posted ≡ s.posted ++ event_of heartbeat t s ∷ []
unfolding on_time_update send_analytics_event
on_time_update-beats t s k b = rw (b, k) refl

on_time_update-last :
    (t : ℕ) (s : Viewer)
    → leb (s.last_heartbeat_time + 15000) t ≡ true
    → (on_time_update t s).last_heartbeat_time ≡ t
unfolding on_time_update send_analytics_event
on_time_update-last t s b = rw b refl

on_time_update-HasToken : (t : ℕ) (s : Viewer) → HasToken s → HasToken (on_time_update t s)
unfolding on_time_update send_analytics_event
on_time_update-HasToken t s k = elim (Bool-cases (leb (s.last_heartbeat_time + 15000) t)) [
  | inl b ↦ rw (b, k) k
  | inr b ↦ rw b k
]

on_time_update-rests :
    (t : ℕ) (s : Viewer) → leb (s.last_heartbeat_time + 15000) t ≡ false → on_time_update t s ≡ s
unfolding on_time_update
on_time_update-rests t s b = rw b refl

-- With a token to report by, and whatever positions the player passes through, in whatever order,
-- the events that it reports by itself are heartbeats, each 15 seconds or more after the last one in the video; the first is 15
-- seconds or more after the position of the last heartbeat or start.
pub play_on-AreSpaced :
    (ts : List ℕ) (s : Viewer)
    → HasToken s
    → (new : List Posted) × ((play_on ts s).posted ≡ s.posted ++ new)
      × AreSpaced s.last_heartbeat_time new
unfolding play_on
play_on-AreSpaced [] s k = ([], sym (append-nil _), tt)
play_on-AreSpaced (t ∷ ts) s k = elim (Bool-cases (leb (s.last_heartbeat_time + 15000) t)) [
  | inl b ↦
      let (new, e, spaced) =
        play_on-AreSpaced ts (on_time_update t s) (on_time_update-HasToken t s k) in
      (
        event_of heartbeat t s ∷ new,
        e
            ∙ ap (λ l. l ++ new) (on_time_update-beats t s k b)
            ∙ append_assoc s.posted (event_of heartbeat t s ∷ []) new,
        (refl, ground arith, subst (λ last. AreSpaced last new) (on_time_update-last t s b) spaced),
      )
  | inr b ↦ simp (on_time_update-rests t s b) (play_on-AreSpaced ts s k)
]

-- After a jump back to a position that is less than 15 seconds after the last heartbeat, nothing
-- is reported while the player stays below that mark, however long it plays.
pub play_on-silent :
    (ts : List ℕ) (s : Viewer) → AllBelow (s.last_heartbeat_time + 15000) ts → play_on ts s ≡ s
unfolding play_on
play_on-silent [] s h = refl
play_on-silent (t ∷ ts) s (b, h) =
    ap (play_on ts) (on_time_update-rests t s (ground arith)) ∙ play_on-silent ts s h
