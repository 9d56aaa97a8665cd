-- ===== src/Dashboard/Keys.antt =====
-- client/dashboard/src/app/dashboard/keys/page.tsx: the state of the page of API keys and its
-- handlers. Random texts and the time are given to the handler that draws them. What the query
-- library holds under `apiKeys` is none until it is loaded or written.
pub mod Handlers
pub mod Screen
use Prim.Native.String
use motionmesh.Base.{
  ℕ, Bool, true, false, ◌||◌, Option, none, some, String, List, [], ◌∷◌, ◌++◌, if◌then◌else◌,
  is_empty, ◌⧺◌, str_eq, show_nat, length, codes, ltb, ◌-◌, ◌==◌, drop,
}
use motionmesh.Js.Base64.{of_codes}
use motionmesh.Player.Country.{trim}

pub data Scope : Type 0 where
  read : Scope
  write : Scope
  admin : Scope

pub record ApiKey : Type 0 where
  pub id : String
  pub name : String
  pub scope : Scope
  pub created_at : String
  pub last_used_at : String
  pub masked_value : String

-- `toasts` are the titles of the messages that were shown, in order.
pub record Page : Type 0 where
  pub cached_keys : Option (List ApiKey)
  pub copied_id : Option String
  pub is_create_open : Bool
  pub new_key_name : String
  pub new_key_scope : Scope
  pub newly_created_key : Option String
  pub clipboard : String
  pub toasts : List String

-- `serverKeys ?? []` and `oldData || []`
abbrev pub keys_of : Option (List ApiKey) → List ApiKey
keys_of none = []
keys_of (some ks) = ks

abbrev pub show_toast : String → Page → Page
show_toast title p = record p { toasts = p.toasts ++ title ∷ [] }

-- The message of a load that failed with a status; the load throws in any case.
unfoldable pub load_failed : ℕ → Page → Page
load_failed status p =
    if status == 401 || status == 403
    then show_toast "Unauthorized" p
    else if status == 429
    then show_toast "Rate Limited" p
    else p

-- `handleCopy(id, text)`, and its timer.
unfoldable pub handle_copy : String → String → Page → Page
handle_copy id text p =
    show_toast "Copied to clipboard" (record p { clipboard = text; copied_id = some id })

unfoldable pub copy_timeout : Page → Page
copy_timeout p = record p { copied_id = none }

-- `text.slice(-n)`
abbrev pub last_codes : ℕ → String → List ℕ
last_codes n text = drop (length (codes text) - n) (codes text)

unfoldable pub full_key_of : String → String → String
full_key_of random random' = "mot_live_" ⧺ (random ⧺ random')

unfoldable pub masked_of : String → String
masked_of full_key = "mot_live_••••••••" ⧺ of_codes (last_codes 4 full_key)

abbrev pub new_key : String → ℕ → String → Page → ApiKey
new_key full_key now created_at p = record {
  id = "key_" ⧺ show_nat now;
  name = p.new_key_name;
  scope = p.new_key_scope;
  created_at = created_at;
  last_used_at = "Never";
  masked_value = masked_of full_key;
}

-- `handleCreate()`, with the two random texts, the time and its ISO text.
unfoldable pub handle_create : String → String → ℕ → String → Page → Page
handle_create random random' now created_at p =
    if is_empty (trim p.new_key_name) then p else record p {
      cached_keys =
          some (new_key (full_key_of random random') now created_at p ∷ keys_of p.cached_keys);
      newly_created_key = some (full_key_of random random');
    }

unfoldable pub without_key : String → List ApiKey → List ApiKey
without_key id [] = []
without_key id (k ∷ ks) = let rest = without_key id ks in if str_eq k.id id then rest else k ∷ rest

-- `handleRevoke(id, name)`
unfoldable pub handle_revoke : String → Page → Page
handle_revoke id p =
    show_toast "Key revoked"
      (record p { cached_keys = some (without_key id (keys_of p.cached_keys)) })

-- `closeCreateModal()`
unfoldable pub close_create_modal : Page → Page
close_create_modal p = record p {
  is_create_open = false;
  newly_created_key = none;
  new_key_name = "";
  new_key_scope = read;
}

pub data Action : Type 0 where
  loaded : List ApiKey → Action
  not_loaded : ℕ → Action
  copied : String → String → Action
  timed_out : Action
  opened : Action
  named : String → Action
  scoped : Scope → Action
  created : String → String → ℕ → String → Action
  revoked : String → Action
  closed : Action

unfoldable pub act : Action → Page → Page
act (loaded ks) p = record p { cached_keys = some ks }
act (not_loaded status) p = load_failed status p
act (copied id text) p = handle_copy id text p
act timed_out p = copy_timeout p
act opened p = record p { is_create_open = true }
act (named name) p = record p { new_key_name = name }
act (scoped scope) p = record p { new_key_scope = scope }
act (created random random' now created_at) p = handle_create random random' now created_at p
act (revoked id) p = handle_revoke id p
act closed p = close_create_modal p
