-- ===== src/Dashboard/Home/Introduction.antt =====
-- The introduction of the home page, once dismissed, and the jobs that it counts.
use motionmesh.Base.{◌≡◌, refl, true, false, List, [], ◌∷◌, arith, ltb}
use motionmesh.Js.Value.{Value}
use motionmesh.Dashboard.Pages.{has_processing}
use motionmesh.Dashboard.Home.{
  count_status, total_active_jobs, Page, is_dismissed, effect, dismiss_onboarding, HomeEvent,
  counted, dismissed, visited, step, run,
}

-- The mark is set and nothing is shown.
abbrev pub IsDismissed : Page → Type 0
IsDismissed s = (is_dismissed s.dismissed ≡ true) × (s.show_onboarding ≡ false)

step-IsDismissed : (e : HomeEvent) (s : Page) → IsDismissed s → IsDismissed (step e s)
unfolding step effect dismiss_onboarding
step-IsDismissed (counted videos) s (d, h) = (d, rw d h)
step-IsDismissed dismissed s (d, h) = (refl, refl)
step-IsDismissed visited s (d, h) = (d, refl)

run-IsDismissed : (es : List HomeEvent) (s : Page) → IsDismissed s → IsDismissed (run es s)
unfolding run
run-IsDismissed [] s h = h
run-IsDismissed (e ∷ es) s h = run-IsDismissed es (step e s) (step-IsDismissed e s h)

-- An introduction that is dismissed stays away, whatever videos come and go and however often the
-- page is visited again.
pub dismiss_onboarding-IsDismissed :
    (es : List HomeEvent) (s : Page) → IsDismissed (run es (dismiss_onboarding s))
unfolding dismiss_onboarding
dismiss_onboarding-IsDismissed es s = run-IsDismissed es _ (refl, refl)

-- The home page counts an active job exactly when the page of videos has something to poll for.
pub total_active_jobs-has_processing :
    (videos : List Value) → ltb 0 (total_active_jobs videos) ≡ has_processing videos
unfolding total_active_jobs count_status has_processing
total_active_jobs-has_processing [] = refl
total_active_jobs-has_processing (v ∷ vs) = ground (arith, total_active_jobs-has_processing vs)
