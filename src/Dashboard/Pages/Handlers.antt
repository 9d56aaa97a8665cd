-- ===== src/Dashboard/Pages/Handlers.antt =====
-- How the handlers of the pages end.
use motionmesh.Base.{
  ◌≡◌, refl, inl, inr, Bool, true, false, not, String, [], ◌∷◌, ◌++◌, if◌then◌else◌, is_empty,
  Bool-cases,
}
use motionmesh.Js.Value.{Value}
use motionmesh.Js.Exception.{Result, ok, thrown}
use motionmesh.Player.Country.{trim}
use motionmesh.Dashboard.Pages.{
  Outcome, is_failure, Screen, handle_delete, handle_create_job, handle_save,
}

-- The handler has ended, with one more message, which tells whether the call succeeded.
abbrev pub Reports : Bool → String → String → Screen → Screen → Type 0
Reports succeeded good bad s s' =
    (s'.is_busy ≡ false) × (s'.toasts ≡ s.toasts ++ ((if succeeded then good else bad) ∷ []))

abbrev pub is_success : Result Outcome → Bool
is_success (thrown e) = false
is_success (ok o) = not (is_failure o)

abbrev pub is_ok : Result Value → Bool
is_ok (ok v) = true
is_ok (thrown e) = false

handle_delete-Reports :
    (outcome : Result Outcome) (s : Screen)
    → Reports
        (is_success outcome)
        "Video deleted"
        "Failed to delete video"
        s
        (handle_delete outcome s)
unfolding handle_delete
handle_delete-Reports (thrown e) s = (refl, refl)
handle_delete-Reports (ok o) s = elim (Bool-cases (is_failure o)) [
  | inl k ↦ rw k (refl, refl)
  | inr k ↦ rw k (refl, refl)
]

handle_save-Reports :
    (outcome : Result Outcome) (s : Screen)
    → Reports (is_success outcome) "Success" "Error" s (handle_save outcome s)
unfolding handle_save
handle_save-Reports (thrown e) s = (refl, refl)
handle_save-Reports (ok o) s = elim (Bool-cases (is_failure o)) [
  | inl k ↦ rw k (refl, refl)
  | inr k ↦ rw k (refl, refl)
]

handle_create_job-Reports :
    (result : Result Value) (s : Screen)
    → is_empty (trim s.name) ≡ false
    → Reports
        (is_ok result)
        "Transcode Job Created"
        "Failed to create job"
        s
        (handle_create_job result s)
unfolding handle_create_job
handle_create_job-Reports (ok v) s n = rw n (refl, refl)
handle_create_job-Reports (thrown e) s n = rw n (refl, refl)

-- Removing a video, saving the branding, and creating a job for an id that is not blank each end,
-- whatever comes of the call and also where it throws: the page is no longer busy, and there is one
-- message more, of success exactly where the call was one.
pub handlers-Reports :
    (outcome : Result Outcome) (result : Result Value) (s : Screen)
    → is_empty (trim s.name) ≡ false
    → Reports
        (is_success outcome)
        "Video deleted"
        "Failed to delete video"
        s
        (handle_delete outcome s)
      × Reports (is_success outcome) "Success" "Error" s (handle_save outcome s)
      × Reports
          (is_ok result)
          "Transcode Job Created"
          "Failed to create job"
          s
          (handle_create_job result s)
handlers-Reports outcome result s n = (
  handle_delete-Reports outcome s,
  handle_save-Reports outcome s,
  handle_create_job-Reports result s n,
)
