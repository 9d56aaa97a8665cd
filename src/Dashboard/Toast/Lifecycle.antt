-- ===== src/Dashboard/Toast/Lifecycle.antt =====
-- A toast from its call to its end.
use package.text.Mathlib.Text.{◌==◌ as ◌=ˢ◌}
use package.text.Mathlib.TextEquality.{eq_iff}
use motionmesh.Base.{
  ◌≡◌, ◌≢◌, ◌∙◌, refl, true, false, none, some, String, List, [], ◌∷◌, ◌++◌, map, is_empty,
  show_nat, Bool-cases, inl, inr,
}
use motionmesh.Base.Lists.{All}
use motionmesh.Dashboard.Toast.{
  Toast, Store, Action, dismiss_toast, remove_toast, contains, close_one, without, reducer,
  dispatch, next_count, new_toast, toast, update, dismiss, fire, Event, toasted, updated, dismissed,
  fired, open_changed, mounted, unmounted, step, run,
}
use motionmesh.Dashboard.Toast.Queue.{
  queue-Queued, queue-pending, contains-delete_ne, contains-delete,
}
use motionmesh.Dashboard.Toast.Invariant.{IsValid, step-IsValid, run-IsValid}

reducer-listeners : (a : Action) (s : Store) → (reducer a s).listeners ≡ s.listeners
unfolding reducer
reducer-listeners (dismiss_toast k) s = (queue-Queued k s).listeners
reducer-listeners (remove_toast none) s = refl
reducer-listeners (remove_toast (some k)) s = refl
reducer-listeners _ s = refl

reducer-notified : (a : Action) (s : Store) → (reducer a s).notified ≡ s.notified
unfolding reducer
reducer-notified (dismiss_toast k) s = (queue-Queued k s).notified
reducer-notified (remove_toast none) s = refl
reducer-notified (remove_toast (some k)) s = refl
reducer-notified _ s = refl

-- Every action tells each listener once, in the order of their subscription, and what it tells
-- them is the list of toasts that the store then has.
pub dispatch-notified :
    (a : Action) (s : Store)
    → (dispatch a s).notified ≡ s.notified ++ map (λ l. (l, (dispatch a s).toasts)) s.listeners
unfolding dispatch
dispatch-notified a s = rw (reducer-notified a s, reducer-listeners a s)

-- A call of `toast` puts its toast on the screen, open and with a new id, in place of any other.
pub toast_shows :
    (props : Toast) (s : Store)
    → (toast props s).toasts ≡ new_toast (show_nat (next_count s.count)) props ∷ []
unfolding toast dispatch reducer
toast_shows props s = refl

pub without-Absent : (k : String) (ts : List Toast) → All (λ t. t.id ≢ k) (without k ts)
without-Absent k [] = tt
without-Absent k (t ∷ ts) = elim (Bool-cases (t.id =ˢ k)) [
  | inl same ↦ rw same (without-Absent k ts)
  | inr other ↦ rw other ((λ e. absurd (cc ((eq_iff t.id k).1 e, other))), without-Absent k ts)
]

-- When its timer fires, a toast leaves the screen, and no timer is left for it.
fire_removes :
    (k : String) (s : Store)
    → IsValid s
    → contains k s.timers ≡ true
    → All (λ t. t.id ≢ k) (fire k s).toasts × (contains k (fire k s).timers ≡ false)
unfolding fire dispatch reducer
fire_removes k s v pending =
    rw pending (without-Absent k s.toasts, contains-delete k s.timers v.queue.distinct)

-- The toasts of an id are closed.
close_one-closed :
    (k : String) (ts : List Toast)
    → All (λ t. t.id ≡ k → t.open_ ≡ some false) (map (close_one (some k)) ts)
close_one-closed k [] = tt
close_one-closed k (t ∷ ts) = elim (Bool-cases (t.id =ˢ k)) [
  | inl same ↦ rw same ((λ e. refl), close_one-closed k ts)
  | inr other ↦ rw other ((λ e. cc ((eq_iff t.id k).1 e, other)), close_one-closed k ts)
]

-- A dismissal by an id that is not empty closes the toasts of that id at once, and leaves a timer
-- pending that will remove them.
pub dismiss_closes :
    (k : String) (s : Store)
    → IsValid s
    → is_empty k ≡ false
    → All (λ t. t.id ≡ k → t.open_ ≡ some false) (dismiss (some k) s).toasts
      × (contains k (dismiss (some k) s).timers ≡ true)
unfolding dismiss dispatch reducer
dismiss_closes k s v e = (close_one-closed k s.toasts, queue-pending k s v.queue e)

reducer-pending :
    (k : String) (a : Action) (s : Store)
    → contains k s.timers ≡ true
    → contains k (reducer a s).timers ≡ true
unfolding reducer
reducer-pending k (dismiss_toast j) s h = (queue-Queued j s).kept k h
reducer-pending k (remove_toast none) s h = h
reducer-pending k (remove_toast (some j)) s h = h
reducer-pending k _ s h = h

-- The event is not the firing of the timer of `k`.
abbrev pub Spares : String → Event → Type 0
Spares k (fired j) = (k =ˢ j) ≡ false
Spares k _ = Unit

step-pending :
    (k : String) (e : Event) (s : Store)
    → Spares k e
    → contains k s.timers ≡ true
    → contains k (step e s).timers ≡ true
unfolding step toast update dismiss fire dispatch
step-pending k (toasted props) s p h = reducer-pending k _ _ h
step-pending k (updated j patch) s p h = reducer-pending k _ s h
step-pending k (dismissed j) s p h = reducer-pending k _ s h
step-pending k (fired j) s p h = elim (Bool-cases (contains j s.timers)) [
  | inl due ↦
      rw due (reducer-pending k (remove_toast (some j)) _ (contains-delete_ne k j s.timers p ∙ h))
  | inr gone ↦ rw gone h
]
step-pending k (open_changed none b) s p h = h
step-pending k (open_changed (some j) true) s p h = h
step-pending k (open_changed (some j) false) s p h = reducer-pending k _ s h
step-pending k (mounted n) s p h = h
step-pending k (unmounted n) s p h = h

-- A pending timer stays pending, whatever else happens, until it fires.
run-pending :
    (k : String) (es : List Event) (s : Store)
    → All (Spares k) es
    → contains k s.timers ≡ true
    → contains k (run es s).timers ≡ true
unfolding run
run-pending k [] s p h = h
run-pending k (e ∷ es) s (p, ps) h = run-pending k es (step e s) ps (step-pending k e s p h)

-- A toast that is dismissed by an id which is not empty goes: whatever happens after the
-- dismissal, the timer for it stays pending until it fires, and when it fires no toast of that id
-- is left, and no timer for it.
pub dismissed_goes :
    (k : String) (es : List Event) (s : Store)
    → IsValid s
    → is_empty k ≡ false
    → All (Spares k) es
    → let s' = run es (dismiss (some k) s) in
      (contains k s'.timers ≡ true)
      × All (λ t. t.id ≢ k) (fire k s').toasts
      × (contains k (fire k s').timers ≡ false)
dismissed_goes k es s v e spares =
    let d = dismiss (some k) s in
    let pending = run-pending k es d spares (dismiss_closes k s v e).1 in
    let valid = run-IsValid es d (unfold step in step-IsValid (dismissed (some k)) s v) in
    let gone = fire_removes k (run es d) valid pending in (pending, gone.0, gone.1)
