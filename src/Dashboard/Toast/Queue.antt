-- ===== src/Dashboard/Toast/Queue.antt =====
-- The map of timers of the toast store: its keys are distinct, and what queues a toast changes
-- nothing else.
use package.text.Mathlib.Text.{◌==◌ as ◌=ˢ◌}
use package.text.Mathlib.TextEquality.{eq_iff}
use package.text.Mathlib.TextPositions.{eq_refl}
use motionmesh.Base.{
  ◌≡◌, ◌∙◌, refl, true, false, ◌||◌, Option, none, some, String, List, [], ◌∷◌, ◌++◌, arith,
  is_empty, Bool-cases, inl, inr,
}
use motionmesh.Dashboard.Toast.{
  Toast, Store, contains, delete, add_to_remove_queue, queue_all, queue,
}

abbrev pub Distinct : List String → Type 0
Distinct [] = Unit
Distinct (x ∷ xs) = (contains x xs ≡ false) × Distinct xs

pub contains-concat :
    (k : String) (xs : List String) (y : String)
    → contains k (xs ++ y ∷ []) ≡ contains k xs || (y =ˢ k)
contains-concat k [] y = ground arith
contains-concat k (x ∷ xs) y = ground (arith, contains-concat k xs y)

Distinct-concat :
    (xs : List String) (y : String) → Distinct xs → contains y xs ≡ false → Distinct (xs ++ y ∷ [])
Distinct-concat [] y d n = (refl, tt)
Distinct-concat (x ∷ xs) y (c, d) n = (
  ground (arith, contains-concat x xs y, eq_iff x y, eq_iff y x),
  Distinct-concat xs y d (ground arith),
)

-- A name that is left out is not found among the others.
pub contains-delete_ne :
    (j k : String) (xs : List String) → (j =ˢ k) ≡ false → contains j (delete k xs) ≡ contains j xs
contains-delete_ne j k [] n = refl
contains-delete_ne j k (x ∷ xs) n =
    ground (arith, contains-delete_ne j k xs n, eq_iff j k, eq_iff x j, eq_iff x k)

pub contains-delete :
    (k : String) (xs : List String) → Distinct xs → contains k (delete k xs) ≡ false
contains-delete k [] d = refl
contains-delete k (x ∷ xs) (c, d) = ground (arith, contains-delete k xs d, eq_iff x k)

contains-delete_absent :
    (j k : String) (xs : List String) → contains j xs ≡ false → contains j (delete k xs) ≡ false
contains-delete_absent j k [] n = refl
contains-delete_absent j k (x ∷ xs) n = ground (arith, contains-delete_absent j k xs)

pub Distinct-delete : (k : String) (xs : List String) → Distinct xs → Distinct (delete k xs)
Distinct-delete k [] d = tt
Distinct-delete k (x ∷ xs) (c, d) =
    ground (arith, Distinct-delete k xs d, contains-delete_absent x k xs c)

-- The keys of the map are the pending timers, each once.
pub record IsQueue (timeouts timers : List String) : Type 0 where
  pub matched : timeouts ≡ timers
  pub distinct : Distinct timers

pub IsQueue-delete :
    (k : String) (timeouts timers : List String)
    → IsQueue timeouts timers
    → IsQueue (delete k timeouts) (delete k timers)
IsQueue-delete k timeouts timers q = record {
  matched = λ i. delete k (q.matched i);
  distinct = Distinct-delete k timers q.distinct;
}

-- What queueing does to a store: more timers, and nothing else.
pub record Queued (s s' : Store) : Type 0 where
  pub queued : IsQueue s.timeouts s.timers → IsQueue s'.timeouts s'.timers
  pub kept : (k : String) → contains k s.timers ≡ true → contains k s'.timers ≡ true
  pub toasts : s'.toasts ≡ s.toasts
  pub count : s'.count ≡ s.count
  pub listeners : s'.listeners ≡ s.listeners
  pub notified : s'.notified ≡ s.notified

Queued-refl : (s : Store) → Queued s s
Queued-refl s = record {
  queued = λ q. q;
  kept = λ k h. h;
  toasts = refl;
  count = refl;
  listeners = refl;
  notified = refl;
}

Queued-trans : (r s t : Store) → Queued r s → Queued s t → Queued r t
Queued-trans r s t a b = record {
  queued = λ q. b.queued (a.queued q);
  kept = λ k h. b.kept k (a.kept k h);
  toasts = b.toasts ∙ a.toasts;
  count = b.count ∙ a.count;
  listeners = b.listeners ∙ a.listeners;
  notified = b.notified ∙ a.notified;
}

add_to_remove_queue-Queued : (k : String) (s : Store) → Queued s (add_to_remove_queue k s)
unfolding add_to_remove_queue
add_to_remove_queue-Queued k s = elim (Bool-cases (contains k s.timeouts)) [
  | inl there ↦ rw there (Queued-refl s)
  | inr new ↦ rw new (record {
    queued = λ q. record {
      matched = λ i. q.matched i ++ k ∷ [];
      distinct = Distinct-concat s.timers k q.distinct (rw (← q.matched) new);
    };
    kept = λ j h. rw (contains-concat j s.timers k, h);
    toasts = refl;
    count = refl;
    listeners = refl;
    notified = refl;
  })
]

pub queue_all-Queued : (ts : List Toast) (s : Store) → Queued s (queue_all ts s)
unfolding queue_all
queue_all-Queued [] s = Queued-refl s
queue_all-Queued (t ∷ ts) s =
    Queued-trans s (add_to_remove_queue t.id s) _ (add_to_remove_queue-Queued t.id s)
      (queue_all-Queued ts (add_to_remove_queue t.id s))

pub queue-Queued : (k : Option String) (s : Store) → Queued s (queue k s)
unfolding queue
queue-Queued none s = queue_all-Queued s.toasts s
queue-Queued (some k) s = elim (Bool-cases (is_empty k)) [
  | inl e ↦ rw e (queue_all-Queued s.toasts s)
  | inr e ↦ rw e (add_to_remove_queue-Queued k s)
]

-- A dismissal by an id that is not empty leaves a timer for it.
pub queue-pending :
    (k : String) (s : Store)
    → IsQueue s.timeouts s.timers
    → is_empty k ≡ false
    → contains k (queue (some k) s).timers ≡ true
unfolding queue add_to_remove_queue
queue-pending k s q e = elim (Bool-cases (contains k s.timeouts)) [
  | inl there ↦ rw (e, there) (rw (← q.matched) there)
  | inr new ↦ rw (e, new) (ground (arith, contains-concat k s.timers k, eq_refl k))
]
