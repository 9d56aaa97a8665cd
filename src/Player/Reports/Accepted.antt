-- ===== src/Player/Reports/Accepted.antt =====
-- What the component reports is what the handler takes, from the first render on.
use motionmesh.Base.{
  ℕ, ◌+◌, ◌≡◌, refl, Bool, true, false, Option, none, some, String, List, [], ◌∷◌, arith, is_empty,
  Bool-cases, inl, inr, lookup, leb,
}
use motionmesh.Base.Lists.{All, All-append}
use motionmesh.Js.Number.{Number, whole, nan, text_to_number}
use motionmesh.Js.Value.{get, is_truthy}
use motionmesh.Player.Views.{
  Kind, play, pause, heartbeat, seek, ended, Viewer, Event, event_of, send_analytics_event, step,
  run, mount, Pending, judge_lock, read_lock, init_view_lock, run_effects, fetch_video_data,
  change_id, settle_one, conclude_event, settle, take_out, unmounted, lock_key, answer_video_data,
  on_play, on_time_update, id_changed, video_answered, country_found, played, paused, finished,
  seeked, time_updated, settled,
}
use motionmesh.Player.Reports.{IsAccepted, posted_body-IsAccepted}

send-AllAccepted :
    (kind : Kind) (t : ℕ) (s : Viewer)
    → All IsAccepted s.posted
    → All IsAccepted (send_analytics_event kind t s).posted
unfolding send_analytics_event
send-AllAccepted kind t s h = elim (Bool-cases (is_truthy (get "analyticsToken" s.video_data))) [
  | inl k ↦
      rw k (All-append IsAccepted s.posted _ h (posted_body-IsAccepted (event_of kind t s) k, tt))
  | inr k ↦ rw k h
]

judge_lock-posted :
    (key : String) (now : ℕ) (s : Viewer) (n : Number) → (judge_lock key now s n).posted ≡ s.posted
judge_lock-posted key now s nan = refl
judge_lock-posted key now s (whole n) = ground arith

read_lock-posted :
    (key : String) (now : ℕ) (s : Viewer) (raw : Option String)
    → (read_lock key now s raw).posted ≡ s.posted
read_lock-posted key now s none = refl
read_lock-posted key now s (some raw) = elim (Bool-cases (is_empty raw)) [
  | inl e ↦ rw e refl
  | inr e ↦ rw e (judge_lock-posted key now s (text_to_number raw))
]

init_view_lock-posted : (now : ℕ) (s : Viewer) → (init_view_lock now s).posted ≡ s.posted
unfolding init_view_lock
init_view_lock-posted now s =
    let read =
      read_lock-posted (lock_key s.video_tracking_id) now
        (record s { unique_eligible = false; unique_locked = false })
        (lookup (lock_key s.video_tracking_id) s.storage) in
    ground (arith, read)

run_effects-posted : (now : ℕ) (s : Viewer) → (run_effects now s).posted ≡ s.posted
unfolding run_effects fetch_video_data
run_effects-posted now s = ground (arith, init_view_lock-posted now s)

change_id-posted : (id : String) (now : ℕ) (s : Viewer) → (change_id id now s).posted ≡ s.posted
unfolding change_id
change_id-posted id now s =
    ground (arith, run_effects-posted now (record s { video_tracking_id = id }))

settle_one-posted :
    (o : Option (Pending × List Pending)) (is_answered : Bool) (now : ℕ) (s : Viewer)
    → (settle_one o is_answered now s).posted ≡ s.posted
unfolding conclude_event
settle_one-posted none is_answered now s = refl
settle_one-posted (some (p, rest)) false now s = refl
settle_one-posted (some (p, rest)) true now s = ground arith

step-AllAccepted :
    (e : Event) (s : Viewer) → All IsAccepted s.posted → All IsAccepted (step e s).posted
unfolding step answer_video_data on_play on_time_update settle
step-AllAccepted (id_changed id now) s h = rw (change_id-posted id now s) h
step-AllAccepted (video_answered none) s h = elim (Bool-cases s.is_loading) [
  | inl k ↦ rw k h
  | inr k ↦ rw k h
]
step-AllAccepted (video_answered (some v)) s h = elim (Bool-cases s.is_loading) [
  | inl k ↦ rw k h
  | inr k ↦ rw k h
]
step-AllAccepted (country_found country) s h = h
step-AllAccepted (played t) s h = send-AllAccepted play t s h
step-AllAccepted (paused t) s h = send-AllAccepted pause t s h
step-AllAccepted (finished t) s h = send-AllAccepted ended t s h
step-AllAccepted (seeked t) s h = send-AllAccepted seek t s h
step-AllAccepted (time_updated t) s h = elim (Bool-cases (leb (s.last_heartbeat_time + 15000) t)) [
  | inl k ↦ rw k (send-AllAccepted heartbeat t s h)
  | inr k ↦ rw k h
]
step-AllAccepted (settled i is_answered now) s h =
    rw (settle_one-posted (take_out i s.pending) is_answered now s) h

run-AllAccepted :
    (es : List Event) (s : Viewer) → All IsAccepted s.posted → All IsAccepted (run es s).posted
unfolding run
run-AllAccepted [] s h = h
run-AllAccepted (e ∷ es) s h = run-AllAccepted es (step e s) (step-AllAccepted e s h)

-- Whatever happens to a player from its first render on, the body of every event that it reports
-- has the fields that the request handler asks for: a token and an event that are truthy, and a
-- number as the position.
pub run-mount-AllAccepted :
    (es : List Event) (id : String) (now : ℕ) (storage_works : Bool)
    (storage : List (String × String))
    → All IsAccepted (run es (mount id now storage_works storage)).posted
unfolding mount
run-mount-AllAccepted es id now storage_works storage =
    run-AllAccepted es _ (rw (run_effects-posted now (unmounted id storage_works storage)) tt)
