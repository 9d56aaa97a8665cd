-- ===== src/Player/Views/Expiry.antt =====
-- How long a view counts as seen: the date that is kept for a video is read by later visits.
use package.text.Mathlib.TextPositions.{eq_refl}
use motionmesh.Base.{
  ℕ, ◌+◌, ◌≡◌, ◌≢◌, refl, ap, ◌∙◌, true, false, some, String, List, [], ◌∷◌, arith, leb, is_empty,
  codes, show_nat, lookup, assign,
}
use motionmesh.Base.Texts.Decimal.{show_nat-IsDecimal}
use motionmesh.Base.Ints.{◌-ℤ◌}
use motionmesh.Js.Number.{nat, subtract}
use motionmesh.Js.Number.Numerals.{text_to_number-show_nat}
use motionmesh.Js.Value.{get, is_truthy}
use motionmesh.Player.Views.{
  Kind, Viewer, unmounted, unique_view_ttl_ms, lock_key, is_old, judge_lock, read_lock,
  init_view_lock, fetch_video_data, run_effects, mount, is_unique_at,
}
use motionmesh.Player.Views.Unique.{report_and_wait, report_and_wait-locks}

not_empty : (s : String) → codes s ≢ [] → is_empty s ≡ false
not_empty String.[] h = absurd (h refl)
not_empty (String.◌∷◌ c s) h = refl

is_empty-show_nat : (n : ℕ) → is_empty (show_nat n) ≡ false
is_empty-show_nat n = not_empty (show_nat n) (show_nat-IsDecimal n).1

is_old_iff :
    (now seen : ℕ) → is_old (subtract (nat now) (nat seen)) ≡ leb (seen + unique_view_ttl_ms) now
unfolding ◌-ℤ◌
is_old_iff now seen = ground arith

judge_lock-eligible :
    (key : String) (now seen : ℕ) (s : Viewer)
    → s.unique_eligible ≡ false
    → (judge_lock key now s (nat seen)).unique_eligible ≡ leb (seen + unique_view_ttl_ms) now
judge_lock-eligible key now seen s e = ground (arith, is_old_iff now seen)

read_lock-eligible :
    (key : String) (now seen : ℕ) (s : Viewer)
    → s.unique_eligible ≡ false
    → (read_lock key now s (some (show_nat seen))).unique_eligible
      ≡ leb (seen + unique_view_ttl_ms) now
read_lock-eligible key now seen s e =
    rw (is_empty-show_nat seen, text_to_number-show_nat seen) (judge_lock-eligible key now seen s e)

lookup-assign : (k v : String) (m : List (String × String)) → lookup k (assign k v m) ≡ some v
lookup-assign k v [] = rw (eq_refl k) refl
lookup-assign k v ((j, w) ∷ m) = ground (arith, eq_refl k, lookup-assign k v m)

fetch-eligible : (s : Viewer) → (fetch_video_data s).unique_eligible ≡ s.unique_eligible
unfolding fetch_video_data
fetch-eligible s = ground arith

init_view_lock-eligible :
    (now seen : ℕ) (s : Viewer)
    → is_empty s.video_tracking_id ≡ false
    → s.storage_works ≡ true
    → lookup (lock_key s.video_tracking_id) s.storage ≡ some (show_nat seen)
    → (init_view_lock now s).unique_eligible ≡ leb (seen + unique_view_ttl_ms) now
unfolding init_view_lock
init_view_lock-eligible now seen s n w l =
    rw (n, w, l) (read_lock-eligible (lock_key s.video_tracking_id) now seen _ refl)

run_effects-eligible :
    (now : ℕ) (s : Viewer)
    → (run_effects now s).unique_eligible ≡ (init_view_lock now s).unique_eligible
unfolding run_effects
run_effects-eligible now s = ground (arith, fetch-eligible (init_view_lock now s))

-- Where `localStorage` works, a view of a video with an id is remembered that was reported as
-- unique, with a token and no other report under way, and whose request was answered at the time
-- `seen`: a later visit to the video may report a unique view again exactly when it begins 30 days
-- after `seen` or later.
pub mount-after_unique :
    (kind : Kind) (t seen now : ℕ) (s : Viewer)
    → is_truthy (get "analyticsToken" s.video_data) ≡ true
    → s.pending ≡ []
    → is_unique_at s t ≡ true
    → s.storage_works ≡ true
    → is_empty s.video_tracking_id ≡ false
    → (mount s.video_tracking_id now true (report_and_wait kind t seen s).storage).unique_eligible
      ≡ leb (seen + 2592000000) now
unfolding mount
mount-after_unique kind t seen now s k p u w n =
    let first = unmounted s.video_tracking_id true (report_and_wait kind t seen s).storage in
    run_effects-eligible now first
    ∙ init_view_lock-eligible now seen first n refl (
        ap (λ (v : Viewer). lookup (lock_key s.video_tracking_id) v.storage)
          (report_and_wait-locks kind t seen s k p u w)
        ∙ lookup-assign (lock_key s.video_tracking_id) (show_nat seen) s.storage)
