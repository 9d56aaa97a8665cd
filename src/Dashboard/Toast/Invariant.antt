-- ===== src/Dashboard/Toast/Invariant.antt =====
-- What holds of the toast store between two events.
use motionmesh.Base.{
  ◌≤◌, ◌<◌, ◌≡◌, refl, true, false, none, some, String, List, [], ◌∷◌, arith, map, length,
  Bool-cases, inl, inr,
}
use motionmesh.Dashboard.Toast.{
  Toast, Store, toast_limit, max_safe_integer, Action, add_toast, update_toast, dismiss_toast,
  remove_toast, contains, without, reducer, dispatch, toast, update, dismiss, fire, Event, toasted,
  updated, dismissed, fired, open_changed, mounted, unmounted, step, run, initial,
}
use motionmesh.Dashboard.Toast.Queue.{IsQueue, IsQueue-delete, queue-Queued}

-- At most one toast is shown, the map of timers has the pending timers as its keys, each once,
-- and the counter of ids stays below the limit of exact integers.
pub record IsValid (s : Store) : Type 0 where
  pub few : length s.toasts ≤ toast_limit
  pub queue : IsQueue s.timeouts s.timers
  pub counted : s.count < max_safe_integer

length-map : (f : Toast → Toast) (ts : List Toast) → length (map f ts) ≡ length ts
length-map f [] = refl
length-map f (t ∷ ts) = omega (arith, length-map f ts)

length-without : (k : String) (ts : List Toast) → length (without k ts) ≤ length ts
length-without k [] = omega arith
length-without k (t ∷ ts) = ground (arith, length-without k ts)

reducer-IsValid : (a : Action) (s : Store) → IsValid s → IsValid (reducer a s)
unfolding reducer
reducer-IsValid (add_toast t) s v = record {
  few = omega arith;
  queue = v.queue;
  counted = v.counted;
}
reducer-IsValid (update_toast p) s v = record {
  few = omega (arith, length-map _ s.toasts, v.few);
  queue = v.queue;
  counted = v.counted;
}
reducer-IsValid (dismiss_toast k) s v =
    let q = queue-Queued k s in
    record {
      few = omega (arith, length-map _ s.toasts, v.few);
      queue = q.queued v.queue;
      counted = rw q.count v.counted;
    }
reducer-IsValid (remove_toast none) s v = record {
  few = omega arith;
  queue = v.queue;
  counted = v.counted;
}
reducer-IsValid (remove_toast (some k)) s v = record {
  few = omega (arith, length-without k s.toasts, v.few);
  queue = v.queue;
  counted = v.counted;
}

dispatch-IsValid : (a : Action) (s : Store) → IsValid s → IsValid (dispatch a s)
unfolding dispatch
dispatch-IsValid a s v =
    let r = reducer-IsValid a s v in record { few = r.few; queue = r.queue; counted = r.counted }

fire-IsValid : (k : String) (s : Store) → IsValid s → IsValid (fire k s)
unfolding fire
fire-IsValid k s v = elim (Bool-cases (contains k s.timers)) [
  | inl pending ↦ rw pending (
      dispatch-IsValid (remove_toast (some k)) _ (record {
        few = v.few;
        queue = IsQueue-delete k s.timeouts s.timers v.queue;
        counted = v.counted;
      }))
  | inr gone ↦ rw gone v
]

-- Every event keeps the invariant.
pub step-IsValid : (e : Event) (s : Store) → IsValid s → IsValid (step e s)
unfolding step toast update dismiss
step-IsValid (toasted props) s v =
    dispatch-IsValid _ _ (record { few = v.few; queue = v.queue; counted = omega arith })
step-IsValid (updated k p) s v = dispatch-IsValid _ s v
step-IsValid (dismissed k) s v = dispatch-IsValid _ s v
step-IsValid (fired k) s v = fire-IsValid k s v
step-IsValid (open_changed none b) s v = v
step-IsValid (open_changed (some k) true) s v = v
step-IsValid (open_changed (some k) false) s v = dispatch-IsValid _ s v
step-IsValid (mounted n) s v = record { few = v.few; queue = v.queue; counted = v.counted }
step-IsValid (unmounted n) s v = record { few = v.few; queue = v.queue; counted = v.counted }

pub run-IsValid : (es : List Event) (s : Store) → IsValid s → IsValid (run es s)
unfolding run
run-IsValid [] s v = v
run-IsValid (e ∷ es) s v = run-IsValid es (step e s) (step-IsValid e s v)

-- Whatever happens to the store from the start on, at most one toast is shown, the map of timers
-- has exactly the pending timers as its keys, each once, and the counter of ids stays below
-- `Number.MAX_SAFE_INTEGER`.
pub run_initial-IsValid : (es : List Event) → IsValid (run es initial)
run_initial-IsValid es = run-IsValid es initial (record {
  few = omega arith;
  queue = record { matched = refl; distinct = tt };
  counted = omega arith;
})
