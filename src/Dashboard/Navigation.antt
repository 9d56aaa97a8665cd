-- ===== src/Dashboard/Navigation.antt =====
-- client/dashboard/src: the sidebar and the bar for small screens, the command palette with its
-- store, the notifications, and the middleware of the API client. `toLowerCase` is the language's,
-- and given; a search is for code points.
pub mod Active
use motionmesh.Base.{
  ℕ, suc, Bool, true, false, not, ◌&&◌, ◌||◌, Option, none, some, String, List, [], ◌∷◌, ◌++◌,
  if◌then◌else◌, is_empty, str_eq, ◌⧺◌, codes, assign, length, map,
}
use motionmesh.Js.Exception.{Exception, Result, ok, thrown}
use motionmesh.Http.{Headers}
use motionmesh.Player.Urls.{begins, includes}

-- When an item is shown as active: `p === path`, or `p.startsWith(path)`.
pub data Match : Type 0 where
  exactly : String → Match
  below : String → Match

abbrev pub matches : Match → String → Bool
matches (exactly path) p = str_eq p path
matches (below path) p = begins (codes path) (codes p)

pub record NavItem : Type 0 where
  pub name : String
  pub href : String
  pub when : Match

abbrev pub item : String → String → NavItem
item name href = record { name = name; href = href; when = below href }

abbrev pub home_item : NavItem
home_item = record { name = "Dashboard"; href = "/dashboard"; when = exactly "/dashboard" }

-- `navItems`, `infraItems`, `accountItems` of the sidebar, and its link to the settings.
abbrev pub sidebar_items : List NavItem
sidebar_items =
    home_item
    ∷ item "Buckets" "/dashboard/buckets"
    ∷ item "Videos" "/dashboard/videos"
    ∷ item "Media Convert" "/dashboard/media-convert"
    ∷ item "Player Branding" "/dashboard/branding"
    ∷ item "API Keys" "/dashboard/keys"
    ∷ item "Usage" "/dashboard/usage"
    ∷ item "Billing" "/dashboard/billing"
    ∷ item "Team" "/dashboard/team"
    ∷ item "Activity Log" "/dashboard/activity"
    ∷ item "Settings" "/dashboard/settings"
    ∷ []

-- The items of the bar for small screens.
abbrev pub mobile_items : List NavItem
mobile_items =
    home_item
    ∷ item "Buckets" "/dashboard/buckets"
    ∷ item "Videos" "/dashboard/videos"
    ∷ item "Keys" "/dashboard/keys"
    ∷ item "Usage" "/dashboard/usage"
    ∷ item "Billing" "/dashboard/billing"
    ∷ item "Team" "/dashboard/team"
    ∷ item "Activity" "/dashboard/activity"
    ∷ item "Docs" "/docs"
    ∷ item "Settings" "/dashboard/settings"
    ∷ []

-- The items that are shown as active at a path.
unfoldable pub active_items : String → List NavItem → List NavItem
active_items p [] = []
active_items p (i ∷ is) =
    let rest = active_items p is in if matches i.when p then i ∷ rest else rest

-- The store of the palette with the component's search, and where the router was sent.
pub record Palette : Type 0 where
  pub is_open : Bool
  pub search : String
  pub place : Option String

unfoldable pub set_open : Bool → Palette → Palette
set_open b s = record s { is_open = b }

unfoldable pub toggle : Palette → Palette
toggle s = record s { is_open = not s.is_open }

-- The listener of the document.
unfoldable pub key_down : String → Bool → Bool → Palette → Palette
key_down key meta_key ctrl_key s =
    let s' = toggle s in if str_eq key "k" && (meta_key || ctrl_key) then s' else s

pub record PaletteResult : Type 0 where
  pub id : String
  pub name : String
  pub href : String

abbrev pub all_results : List PaletteResult
all_results =
    (record { id = "1"; name = "production-assets"; href = "/dashboard/buckets/bck_1" })
    ∷ (record { id = "2"; name = "hero-bg.mp4"; href = "/videos/vid_1" })
    ∷ (record { id = "3"; name = "readonly-key"; href = "/keys" })
    ∷ []

unfoldable pub with_name : (String → String) → String → List PaletteResult → List PaletteResult
with_name to_lower_case search [] = []
with_name to_lower_case search (r ∷ rs) =
    let rest = with_name to_lower_case search rs in
    if includes (codes (to_lower_case search)) (codes (to_lower_case r.name))
    then r ∷ rest
    else rest

-- What an open palette lists.
unfoldable pub results : (String → String) → Palette → List PaletteResult
results to_lower_case s = with_name to_lower_case s.search all_results

-- A click on a result.
unfoldable pub choose_result : PaletteResult → Palette → Palette
choose_result r s = record (set_open false (record s { place = some r.href })) { search = "" }

-- The notifications.
pub record Notification : Type 0 where
  pub id : String
  pub is_read : Bool

unfoldable pub unread_count : List Notification → ℕ
unread_count [] = 0
unread_count (n ∷ ns) = let rest = unread_count ns in if n.is_read then rest else suc rest

unfoldable pub handle_mark_all_read : List Notification → List Notification
handle_mark_all_read [] = []
handle_mark_all_read (n ∷ ns) = record n { is_read = true } ∷ handle_mark_all_read ns

-- `onRequest` of the middleware, from what `getToken()` comes to and the headers of the request.
abbrev pub with_token : Option String → Headers → Headers
with_token none headers = headers
with_token (some token) headers =
    if is_empty token then headers else assign "authorization" ("Bearer " ⧺ token) headers

unfoldable pub on_request : Result (Option String) → Headers → Result Headers
on_request (thrown e) headers = thrown e
on_request (ok token) headers = ok (with_token token headers)
