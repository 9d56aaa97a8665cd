-- ===== src/Dashboard/Activity.antt =====
-- client/dashboard/src/app/dashboard/activity/page.tsx: the log that is made of the videos, the
-- filters that it offers, and what a filter shows. A missing response is the empty list.
pub mod Filters
pub mod Screen
use motionmesh.Base.{
  Bool, true, false, String, List, [], ◌∷◌, ◌++◌, if◌then◌else◌, str_eq, map, Option, none, some,
}
use motionmesh.Js.Value.{Value, str, get, or_nullish}
use motionmesh.Dashboard.Buckets.{has}

pub record ActivityEntry : Type 0 where
  pub id : Value
  pub action : String
  pub actor : String
  pub resource : Value
  pub timestamp : Value

-- `v === text`
abbrev pub is_text : String → Value → Bool
is_text text (str s) = str_eq s text
is_text text _ = false

abbrev pub action_of_status : Value → String
action_of_status status =
    if is_text "ready" status
    then "video.transcoded"
    else if is_text "processing" status
    then "video.processing"
    else if is_text "failed" status
    then "video.failed"
    else "video.uploaded"

-- One video's entry, where `now` is the text of the present time.
abbrev pub entry_of : String → Value → ActivityEntry
entry_of now v = record {
  id = get "id" v;
  action = action_of_status (get "status" v);
  actor = "System";
  resource = or_nullish (get "title" v) (get "id" v);
  timestamp = or_nullish (or_nullish (get "updated_at" v) (get "created_at" v)) (str now);
}

unfoldable pub derive_activity_from_videos : String → List Value → List ActivityEntry
derive_activity_from_videos now [] = []
derive_activity_from_videos now (v ∷ vs) = entry_of now v ∷ derive_activity_from_videos now vs

-- `set.add(text)`
abbrev pub add_to_set : String → List String → List String
add_to_set x s = if has x s then s else s ++ x ∷ []

unfoldable pub add_actions : List ActivityEntry → List String → List String
add_actions [] s = s
add_actions (a ∷ as_) s = add_actions as_ (add_to_set a.action s)

-- `Array.from(new Set(activity.map((a) => a.action)))`
unfoldable pub action_types : List ActivityEntry → List String
action_types activity = add_actions activity []

unfoldable pub with_action : String → List ActivityEntry → List ActivityEntry
with_action x [] = []
with_action x (a ∷ as_) =
    let rest = with_action x as_ in if str_eq a.action x then a ∷ rest else rest

-- `filteredActivity`
unfoldable pub filtered_activity : String → List ActivityEntry → List ActivityEntry
filtered_activity filter activity =
    if str_eq filter "all" then activity else with_action filter activity
