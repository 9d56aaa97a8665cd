-- ===== src/Dashboard/Keys/Screen.antt =====
-- client/dashboard/src/app/dashboard/keys/page.tsx: what the page shows of its state. Dates are left to
-- the browser.
use motionmesh.Base.{
  Bool, false, not, Option, none, some, String, List, [], ◌∷◌, if◌then◌else◌, is_empty, str_eq,
}
use motionmesh.Player.Country.{trim}
use motionmesh.Dashboard.Keys.{Scope, read, write, admin, ApiKey, Page, keys_of}

-- What the page says of the scope that is chosen.
abbrev pub scope_hint : Scope → String
scope_hint read = "Can only read data and access videos."
scope_hint write = "Can upload videos and manage renditions."
scope_hint admin = "Can manage buckets, keys, and billing."

-- The dialog: a new key, and whether it was just copied, or the form, and whether it can be sent.
pub data Dialog : Type 0 where
  key_dialog : String → Bool → Dialog
  form_dialog : String → Scope → String → Bool → Dialog

abbrev pub is_copied : String → Option String → Bool
is_copied id none = false
is_copied id (some copied) = str_eq copied id

abbrev pub form_of : Page → Dialog
form_of p =
    form_dialog p.new_key_name p.new_key_scope (scope_hint p.new_key_scope)
      (not (is_empty (trim p.new_key_name)))

abbrev pub dialog_of : Option String → Page → Dialog
dialog_of none p = form_of p
dialog_of (some key) p =
    if is_empty key then form_of p else key_dialog key (is_copied "new" p.copied_id)

unfoldable pub create_dialog : Page → Option Dialog
create_dialog p = if p.is_create_open then some (dialog_of p.newly_created_key p) else none

abbrev pub dialog_title : Dialog → String
dialog_title (key_dialog key copied) = "Save your new API Key"
dialog_title (form_dialog name scope hint can_create) = "Create a new API Key"

-- A line of the table.
pub record KeyLine : Type 0 where
  pub name : String
  pub scope : Scope
  pub masked_value : String
  pub is_just_copied : Bool
  pub never_used : Bool

unfoldable pub key_lines : Option String → List ApiKey → List KeyLine
key_lines copied [] = []
key_lines copied (k ∷ ks) =
    (record {
      name = k.name;
      scope = k.scope;
      masked_value = k.masked_value;
      is_just_copied = is_copied k.id copied;
      never_used = str_eq k.last_used_at "Never";
    })
    ∷ key_lines copied ks

unfoldable pub keys_table : Page → List KeyLine
keys_table p = key_lines p.copied_id (keys_of p.cached_keys)
