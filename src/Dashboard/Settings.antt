-- ===== src/Dashboard/Settings.antt =====
-- client/dashboard/src/app/dashboard: the pages for settings, team and status. The times and texts
-- of the present moment are given, and so are the two letters of a member's picture.
pub mod Deletion
pub mod Members
use motionmesh.Base.{
  ℕ, zero, suc, Bool, true, false, ◌&&◌, ◌||◌, not, Option, none, some, String, List, [], ◌∷◌, ◌++◌,
  if◌then◌else◌, str_eq, ◌⧺◌, show_nat,
}
use motionmesh.Js.Value.{Value, get, is_nullish}
use motionmesh.Dashboard.Activity.{is_text}

-- `deleteStep`
pub data DeleteStep : Type 0 where
  idle : DeleteStep
  confirming : DeleteStep
  initiated : DeleteStep

-- The page of settings; `saves` are the pending timeouts of `handleSaveName`.
pub record Settings : Type 0 where
  pub account_name : String
  pub is_saving_name : Bool
  pub delete_step : DeleteStep
  pub delete_confirm_text : String
  pub saves : ℕ
  pub toasts : List String

abbrev pub tell : String → Settings → Settings
tell title s = record s { toasts = s.toasts ++ title ∷ [] }

unfoldable pub handle_save_name : Settings → Settings
handle_save_name s = record s { is_saving_name = true; saves = suc s.saves }

-- A timeout calls back.
abbrev pub after_save : ℕ → Settings → Settings
after_save zero s = s
after_save (suc n) s = record (tell "Account name updated successfully." s) {
  is_saving_name = false;
  saves = n;
}

unfoldable pub handle_save_preferences : Settings → Settings
handle_save_preferences s = tell "Preferences saved successfully." s

-- `handleDeleteAccount`, by the present step.
abbrev pub delete_from : DeleteStep → Settings → Settings
delete_from idle s = record s { delete_step = confirming }
delete_from confirming s =
    if str_eq s.delete_confirm_text s.account_name
    then record (tell "Account deletion initiated. You will be logged out." s) {
      delete_step = initiated;
    }
    else s
delete_from initiated s = s

unfoldable pub handle_delete_account : Settings → Settings
handle_delete_account s = delete_from s.delete_step s

abbrev pub open_from : DeleteStep → Settings → Settings
open_from idle s = record s { delete_step = confirming }
open_from confirming s = s
open_from initiated s = s

abbrev pub cancel_from : DeleteStep → Settings → Settings
cancel_from idle s = s
cancel_from confirming s = record s { delete_step = idle; delete_confirm_text = "" }
cancel_from initiated s = record s { delete_step = idle; delete_confirm_text = "" }

-- The button that confirms is shown from the second step on, and is off while the texts differ.
abbrev pub confirm_from : DeleteStep → Settings → Settings
confirm_from idle s = s
confirm_from confirming s =
    let s' = handle_delete_account s in
    if str_eq s.delete_confirm_text s.account_name then s' else s
confirm_from initiated s =
    let s' = handle_delete_account s in
    if str_eq s.delete_confirm_text s.account_name then s' else s

-- What is done on the page: texts are typed, and buttons pressed.
pub data SettingsEvent : Type 0 where
  renamed : String → SettingsEvent
  save_pressed : SettingsEvent
  save_ended : SettingsEvent
  preferences_saved : SettingsEvent
  confirm_typed : String → SettingsEvent
  delete_opened : SettingsEvent
  delete_cancelled : SettingsEvent
  delete_confirmed : SettingsEvent

unfoldable pub step : SettingsEvent → Settings → Settings
step (renamed name) s = record s { account_name = name }
step save_pressed s = let s' = handle_save_name s in if s.is_saving_name then s else s'
step save_ended s = after_save s.saves s
step preferences_saved s = handle_save_preferences s
step (confirm_typed text) s = record s { delete_confirm_text = text }
step delete_opened s = open_from s.delete_step s
step delete_cancelled s = cancel_from s.delete_step s
step delete_confirmed s = confirm_from s.delete_step s

unfoldable pub run : List SettingsEvent → Settings → Settings
run [] s = s
run (e ∷ es) s = run es (step e s)

-- The page of the team.
pub record Member : Type 0 where
  pub id : String
  pub name : String
  pub email : String
  pub role : String
  pub joined_at : String
  pub avatar_initials : String

pub record Team : Type 0 where
  pub members : List Member
  pub is_invite_open : Bool
  pub toasts : List String

-- `handleInvite`, where `initials` are the first two letters of the address in upper case.
unfoldable pub handle_invite : String → String → ℕ → String → String → Team → Team
handle_invite email role now today initials s = record {
  members =
      s.members
      ++ (record {
        id = "usr_" ⧺ show_nat now;
        name = "Pending Invite";
        email = email;
        role = role;
        joined_at = today;
        avatar_initials = initials;
      })
        ∷ [];
  is_invite_open = false;
  toasts = s.toasts ++ ("Invitation sent to " ⧺ email) ∷ [];
}

-- The page of the status.
pub data ServiceStatus : Type 0 where
  operational : ServiceStatus
  degraded : ServiceStatus
  outage : ServiceStatus

pub record SystemStatus : Type 0 where
  pub overall : ServiceStatus
  pub components : List (String × ServiceStatus)

-- `subscription?.status === "active" || subscription?.plan != null`
abbrev pub is_active : Value → Bool
is_active subscription =
    is_text "active" (get "status" subscription) || not (is_nullish (get "plan" subscription))

-- `deriveStatus(subscription)`
unfoldable pub derive_status : Value → SystemStatus
derive_status subscription = record {
  overall = if is_active subscription then operational else operational;
  components =
      ("API", operational)
      ∷ ("Transcoding Pipeline", operational)
      ∷ ("Storage Hub", operational)
      ∷ ("AI Captions & Subtitles", operational)
      ∷ [];
}

abbrev pub status_color : ServiceStatus → String
status_color operational = "text-success"
status_color degraded = "text-warning"
status_color outage = "text-danger"

abbrev pub overall_border_color : ServiceStatus → String
overall_border_color operational = "border-t-success bg-success/5"
overall_border_color degraded = "border-t-warning bg-warning/5"
overall_border_color outage = "border-t-danger bg-danger/5"
