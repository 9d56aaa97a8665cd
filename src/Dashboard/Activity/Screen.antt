-- ===== src/Dashboard/Activity/Screen.antt =====
-- client/dashboard/src/app/dashboard/activity/page.tsx: the query of the page and what it shows.
use motionmesh.Base.{ℕ, Bool, ◌&&◌, String, List, [], ◌∷◌, if◌then◌else◌, leb, ltb, str_eq, ◌⧺◌}
use motionmesh.Js.Value.{Value, arr, stop, elements, or_nullish}
use motionmesh.Js.Exception.{error, Result, ok, thrown}
use motionmesh.Dashboard.Activity.{ActivityEntry, derive_activity_from_videos, filtered_activity}

-- The query, from the status and the data of its call.
unfoldable pub load_activity : ℕ → Value → Value
load_activity status data_ =
    if leb 200 status && ltb status 300 then or_nullish data_ (arr stop) else arr stop

pub data ActivityScreen : Type 0 where
  loading : ActivityScreen
  nothing : String → ActivityScreen
  entries : List ActivityEntry → ActivityScreen

abbrev pub no_activity : String → String
no_activity filter =
    "No activity found" ⧺ ((if str_eq filter "all" then " yet" else " for this filter") ⧺ ".")

abbrev pub screen_of : String → List ActivityEntry → ActivityScreen
screen_of filter [] = nothing (no_activity filter)
screen_of filter (a ∷ as_) = entries (a ∷ as_)

-- `videos.map` of what is no array throws.
abbrev pub activity_of : String → Bool → String → Value → Result ActivityScreen
activity_of now is_loading filter (arr vs) =
    let shown =
      screen_of filter (filtered_activity filter (derive_activity_from_videos now (elements vs))) in
    ok (if is_loading then loading else shown)
activity_of now is_loading filter _ = thrown (error "videos.map is not a function")

unfoldable pub activity_screen : String → Bool → String → Value → Result ActivityScreen
activity_screen now is_loading filter videos =
    activity_of now is_loading filter (or_nullish videos (arr stop))
