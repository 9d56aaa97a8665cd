-- ===== src/Dashboard/Toast/Refinement.antt =====
-- What the toasts promise, apart from how the store keeps them: one place on the screen, and a set
-- of ids that are due to go. The store's lists, its map of timers and its listeners are forgotten,
-- and so is the order of the timers.
use package.text.Mathlib.Text.{◌==◌ as ◌=ˢ◌}
use package.text.Mathlib.TextEquality.{eq_iff}
use motionmesh.Base.{
  ℕ, ◌≡◌, ◌∙◌, refl, Bool, true, false, not, ◌&&◌, ◌||◌, Option, none, some, String, List, [], ◌∷◌,
  arith, if◌then◌else◌, is_empty, show_nat, Bool-cases, inl, inr, length, ◌≤◌, map,
}
use motionmesh.Dashboard.Toast.{
  Toast, Store, contains, delete, add_to_remove_queue, queue_all, queue, update_one, close_one,
  without, reducer, dispatch, next_count, new_toast, toast, update, dismiss, fire, Event, toasted,
  updated, dismissed, fired, open_changed, mounted, unmounted, step, run,
}
use motionmesh.Dashboard.Toast.Queue.{
  IsQueue, Distinct, queue-Queued, contains-concat, contains-delete, contains-delete_ne,
}
use motionmesh.Dashboard.Toast.Invariant.{IsValid, step-IsValid}

-- The toast that is shown, which ids are due, and the number of the last id.
pub record Panel : Type 0 where
  pub slot : Option Toast
  pub due : String → Bool
  pub count : ℕ

abbrev pub first_toast : List Toast → Option Toast
first_toast [] = none
first_toast (t ∷ ts) = some t

abbrev pub view : Store → Panel
view s = record { slot = first_toast s.toasts; due = λ j. contains j s.timers; count = s.count }

abbrev pub add_due : String → (String → Bool) → String → Bool
add_due k due j = due j || (k =ˢ j)

abbrev pub drop_due : String → (String → Bool) → String → Bool
drop_due k due j = due j && not (j =ˢ k)

abbrev pub add_slot : Option Toast → (String → Bool) → String → Bool
add_slot none due = due
add_slot (some t) due = add_due t.id due

-- An empty id means the toast that is shown, as no id does.
abbrev pub schedule : Option String → Panel → String → Bool
schedule none p = add_slot p.slot p.due
schedule (some k) p = if is_empty k then add_slot p.slot p.due else add_due k p.due

abbrev pub on_slot : (Toast → Toast) → Option Toast → Option Toast
on_slot f none = none
on_slot f (some t) = some (f t)

abbrev pub vacate : String → Option Toast → Option Toast
vacate k none = none
vacate k (some t) = if t.id =ˢ k then none else some t

abbrev pub close_panel : Option String → Panel → Panel
close_panel k p = record {
  slot = on_slot (close_one k) p.slot;
  due = schedule k p;
  count = p.count;
}

-- What an event does to the panel.
unfoldable pub move : Event → Panel → Panel
move (toasted props) p = record {
  slot = some (new_toast (show_nat (next_count p.count)) props);
  due = p.due;
  count = next_count p.count;
}
move (updated k patch) p = record p {
  slot = on_slot (update_one (record patch { id = some k })) p.slot;
}
move (dismissed k) p = close_panel k p
move (fired k) p =
    if p.due k then record p { slot = vacate k p.slot; due = drop_due k p.due } else p
move (open_changed none is_open) p = p
move (open_changed (some k) true) p = p
move (open_changed (some k) false) p = close_panel (some k) p
move (mounted n) p = p
move (unmounted n) p = p

unfoldable pub moves : List Event → Panel → Panel
moves [] p = p
moves (e ∷ es) p = moves es (move e p)

Panel-ext : (p q : Panel) → p.slot ≡ q.slot → p.due ≡ q.due → p.count ≡ q.count → p ≡ q
Panel-ext p q a b c = λ i. record { slot = a i; due = b i; count = c i }

first_toast-map :
    (f : Toast → Toast) (ts : List Toast) → first_toast (map f ts) ≡ on_slot f (first_toast ts)
first_toast-map f [] = refl
first_toast-map f (t ∷ ts) = refl

first_toast-without :
    (k : String) (ts : List Toast)
    → length ts ≤ 1
    → first_toast (without k ts) ≡ vacate k (first_toast ts)
first_toast-without k [] h = refl
first_toast-without k (t ∷ []) h = elim (Bool-cases (t.id =ˢ k)) [
  | inl same ↦ rw same refl
  | inr other ↦ rw other refl
]
first_toast-without k (t ∷ u ∷ ts) h = absurd (omega arith)

-- A timer is queued for an id where there is none.
contains-add_to_remove_queue :
    (k j : String) (s : Store)
    → IsQueue s.timeouts s.timers
    → contains j (add_to_remove_queue k s).timers ≡ add_due k (λ j. contains j s.timers) j
unfolding add_to_remove_queue
contains-add_to_remove_queue k j s q = elim (Bool-cases (contains k s.timeouts)) [
  | inl there ↦
      let pending : contains k s.timers ≡ true = rw (← q.matched) there in
      rw there (ground (arith, eq_iff k j, pending))
  | inr new ↦ rw new (contains-concat j s.timers k)
]

contains-queue_all :
    (ts : List Toast) (j : String) (s : Store)
    → length ts ≤ 1
    → IsQueue s.timeouts s.timers
    → contains j (queue_all ts s).timers ≡ add_slot (first_toast ts) (λ j. contains j s.timers) j
unfolding queue_all
contains-queue_all [] j s h q = refl
contains-queue_all (t ∷ []) j s h q = contains-add_to_remove_queue t.id j s q
contains-queue_all (t ∷ u ∷ ts) j s h q = absurd (omega arith)

contains-queue :
    (k : Option String) (j : String) (s : Store)
    → IsValid s
    → contains j (queue k s).timers ≡ schedule k (view s) j
unfolding queue
contains-queue none j s v = contains-queue_all s.toasts j s v.few v.queue
contains-queue (some k) j s v = elim (Bool-cases (is_empty k)) [
  | inl e ↦ rw e (contains-queue_all s.toasts j s v.few v.queue)
  | inr e ↦ rw e (contains-add_to_remove_queue k j s v.queue)
]

contains-delete_due :
    (k j : String) (xs : List String)
    → Distinct xs
    → contains j (delete k xs) ≡ drop_due k (λ j. contains j xs) j
contains-delete_due k j xs d = elim (Bool-cases (j =ˢ k)) [
  | inl same ↦ ground (arith, contains-delete k xs d, eq_iff j k)
  | inr other ↦ ground (arith, contains-delete_ne j k xs other)
]

dismiss-close_panel :
    (k : Option String) (s : Store) → IsValid s → view (dismiss k s) ≡ close_panel k (view s)
unfolding dismiss dispatch reducer
dismiss-close_panel k s v =
    Panel-ext _ _ (first_toast-map (close_one k) s.toasts) (λ i j. contains-queue k j s v i)
      (queue-Queued k s).count

fire-move : (k : String) (s : Store) → IsValid s → view (fire k s) ≡ move (fired k) (view s)
unfolding fire dispatch reducer move
fire-move k s v = elim (Bool-cases (contains k s.timers)) [
  | inl pending ↦ rw pending (
      Panel-ext _ _ (first_toast-without k s.toasts v.few)
        (λ i j. contains-delete_due k j s.timers v.queue.distinct i) refl)
  | inr gone ↦ rw gone refl
]

-- Each event does to the panel what the promise says.
pub step-move : (e : Event) (s : Store) → IsValid s → view (step e s) ≡ move e (view s)
unfolding step move toast update
step-move (toasted props) s v = unfold dispatch reducer in refl
step-move (updated k patch) s v =
    unfold dispatch reducer in Panel-ext _ _ (first_toast-map _ s.toasts) refl refl
step-move (dismissed k) s v = dismiss-close_panel k s v
step-move (fired k) s v = fire-move k s v
step-move (open_changed none b) s v = refl
step-move (open_changed (some k) true) s v = refl
step-move (open_changed (some k) false) s v = dismiss-close_panel (some k) s v
step-move (mounted n) s v = refl
step-move (unmounted n) s v = refl

-- The store of the toasts implements the panel: from a store that is valid, every sequence of
-- events leads to a store whose panel, that is the toast shown, the set of ids that are due
-- to go and the last number, is what the same events make of the first store's panel, where a toast
-- takes the one place, a dismissal closes it and makes its id due, and the timer of a due id
-- vacates the place if the toast of that id has it.
pub run-moves : (es : List Event) (s : Store) → IsValid s → view (run es s) ≡ moves es (view s)
unfolding run moves
run-moves [] s v = refl
run-moves (e ∷ es) s v =
    run-moves es (step e s) (step-IsValid e s v) ∙ (λ i. moves es (step-move e s v i))
