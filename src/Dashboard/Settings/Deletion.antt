-- ===== src/Dashboard/Settings/Deletion.antt =====
-- When the page of settings starts a deletion.
use motionmesh.Base.{
  ℕ, zero, suc, ◌≡◌, refl, true, ◌⊎◌, List, [], ◌∷◌, str_eq, Bool-cases, inl, inr,
}
use motionmesh.Dashboard.Settings.{
  DeleteStep, idle, confirming, initiated, Settings, handle_save_name, after_save,
  handle_save_preferences, open_from, cancel_from, confirm_from, SettingsEvent, renamed,
  save_pressed, save_ended, preferences_saved, confirm_typed, delete_opened, delete_cancelled,
  delete_confirmed, step, run,
}

-- The step of the page is not the last one.
abbrev pub IsOpen : DeleteStep → Type 0
IsOpen idle = Unit
IsOpen confirming = Unit
IsOpen initiated = ⊥

-- The moment at which a deletion is started: the confirmation, typed exactly, is pressed.
abbrev pub Confirms : SettingsEvent → Settings → Type 0
Confirms delete_confirmed s =
    (s.delete_step ≡ confirming) × (str_eq s.delete_confirm_text s.account_name ≡ true)
Confirms _ s = ⊥

-- Among the events there is one that confirms, in the state that those before it lead to.
abbrev pub Confirmed : List SettingsEvent → Settings → Type 0
Confirmed [] s = ⊥
Confirmed (e ∷ es) s = Confirms e s ⊎ Confirmed es (step e s)

after_save-delete_step : (n : ℕ) (s : Settings) → (after_save n s).delete_step ≡ s.delete_step
after_save-delete_step zero s = refl
after_save-delete_step (suc n) s = refl

-- An event that does not confirm leaves the page before the last step.
step-IsOpen :
    (e : SettingsEvent) (s : Settings)
    → IsOpen s.delete_step
    → IsOpen (step e s).delete_step ⊎ Confirms e s
unfolding step handle_save_name handle_save_preferences
step-IsOpen (renamed name) s o = inl o
step-IsOpen save_pressed s o = elim (Bool-cases s.is_saving_name) [
  | inl k ↦ inl (rw k o)
  | inr k ↦ inl (rw k o)
]
step-IsOpen save_ended s o = inl (rw (after_save-delete_step s.saves s) o)
step-IsOpen preferences_saved s o = inl o
step-IsOpen (confirm_typed text) s o = inl o
step-IsOpen delete_opened s o = inl (opened s.delete_step s refl o)
  where
    opened :
        (d : DeleteStep) (t : Settings)
        → t.delete_step ≡ d
        → IsOpen d
        → IsOpen (open_from d t).delete_step
    opened idle t e o = tt
    opened confirming t e o = rw e tt
    opened initiated t e o = absurd o
step-IsOpen delete_cancelled s o = inl (cancelled s.delete_step s refl o)
  where
    cancelled :
        (d : DeleteStep) (t : Settings)
        → t.delete_step ≡ d
        → IsOpen d
        → IsOpen (cancel_from d t).delete_step
    cancelled idle t e o = rw e tt
    cancelled confirming t e o = tt
    cancelled initiated t e o = absurd o
step-IsOpen delete_confirmed s o = confirmed s.delete_step s refl o
  where
    confirmed :
        (d : DeleteStep) (t : Settings)
        → t.delete_step ≡ d
        → IsOpen d
        → IsOpen (confirm_from d t).delete_step
          ⊎ ((t.delete_step ≡ confirming) × (str_eq t.delete_confirm_text t.account_name ≡ true))
    confirmed idle t e o = inl (rw e tt)
    confirmed confirming t e o = elim (Bool-cases (str_eq t.delete_confirm_text t.account_name)) [
      | inl same ↦ inr (e, same)
      | inr other ↦ inl (rw (other, e) tt)
    ]
    confirmed initiated t e o = absurd o

-- A deletion is started only by a confirmation: if the page has come to its last step, then
-- among the events since it was not there one is the press of the confirming button, in a state
-- that asks for the confirmation and where the text typed is the account's name as it then is.
pub run-Confirmed :
    (es : List SettingsEvent) (s : Settings)
    → IsOpen s.delete_step
    → (run es s).delete_step ≡ initiated
    → Confirmed es s
unfolding run
run-Confirmed [] s o i = absurd (rw i at o)
run-Confirmed (e ∷ es) s o i = elim (step-IsOpen e s o) [
  | inl still ↦ inr (run-Confirmed es (step e s) still i)
  | inr now ↦ inl now
]
