-- ===== src/Dashboard/Activity/Filters.antt =====
-- The filters that the log offers are the ones that show something.
use package.text.Mathlib.TextEquality.{eq_iff}
use motionmesh.Base.{
  ◌≡◌, refl, ap, sym, ◌∙◌, Bool, true, false, ◌||◌, String, List, [], ◌∷◌, arith, str_eq,
  Bool-cases, inl, inr,
}
use motionmesh.Dashboard.Buckets.{has}
use motionmesh.Dashboard.Buckets.Groups.{has-concat}
use motionmesh.Dashboard.Activity.{
  ActivityEntry, add_to_set, add_actions, action_types, with_action, filtered_activity,
}

abbrev pub shows_something : List ActivityEntry → Bool
shows_something [] = false
shows_something (a ∷ as_) = true

has-add_to_set : (f x : String) (s : List String) → has f (add_to_set x s) ≡ has f s || str_eq x f
has-add_to_set f x s = elim (Bool-cases (has x s)) [
  | inl k ↦ ground (arith, eq_iff x f)
  | inr k ↦ ground (arith, has-concat f x s)
]

shows-with_action :
    (f : String) (a : ActivityEntry) (as_ : List ActivityEntry)
    → shows_something (with_action f (a ∷ as_))
      ≡ str_eq a.action f || shows_something (with_action f as_)
unfolding with_action
shows-with_action f a as_ = ground arith

or_assoc : (a b c : Bool) → (a || b) || c ≡ a || (b || c)
or_assoc true b c = refl
or_assoc false b c = refl

or_false : (a : Bool) → a || false ≡ a
or_false true = refl
or_false false = refl

has-add_actions :
    (f : String) (as_ : List ActivityEntry) (s : List String)
    → has f (add_actions as_ s) ≡ has f s || shows_something (with_action f as_)
unfolding add_actions with_action
has-add_actions f [] s = sym (or_false (has f s))
has-add_actions f (a ∷ as_) s =
    has-add_actions f as_ (add_to_set a.action s)
    ∙ ap (λ b. b || shows_something (with_action f as_)) (has-add_to_set f a.action s)
    ∙ or_assoc (has f s) (str_eq a.action f) (shows_something (with_action f as_))
    ∙ ap (λ b. has f s || b) (sym (shows-with_action f a as_))

-- A filter other than `all` is offered exactly when it shows an entry: none that is offered shows
-- an empty log, and none that would show something is missing.
pub action_types-offer :
    (filter : String) (activity : List ActivityEntry)
    → str_eq filter "all" ≡ false
    → has filter (action_types activity) ≡ shows_something (filtered_activity filter activity)
unfolding action_types filtered_activity has
action_types-offer filter activity n = rw n (has-add_actions filter activity [])
