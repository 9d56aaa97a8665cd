-- ===== src/Dashboard/Toast.antt =====
-- client/dashboard/src/hooks/use-toast.ts: the toasts on the screen, as one store that the whole
-- dashboard shares. The module's variables are a record, and the engine's pending timers stand
-- beside them. What React shows in a toast is a text here, and `onOpenChange` is the id of the toast
-- that it dismisses.
pub mod Queue
pub mod Invariant
pub mod Lifecycle
pub mod Refinement
pub mod Draining
use package.text.Mathlib.Text.{◌==◌ as ◌=ˢ◌}
use motionmesh.Base.{
  ℕ, ◌+◌, ◌%◌, Bool, true, false, not, ◌||◌, Option, none, some, String, List, [], ◌∷◌, ◌++◌, map,
  take, if◌then◌else◌, is_empty, show_nat, ◌==◌,
}

abbrev pub toast_limit : ℕ
toast_limit = 1

-- `Number.MAX_SAFE_INTEGER`
abbrev pub max_safe_integer : ℕ
max_safe_integer = 9007199254740991

-- `ToasterToast`
pub record Toast : Type 0 where
  pub id : String
  pub title : Option String
  pub description : Option String
  pub action : Option String
  pub open_ : Option Bool
  pub on_open_change : Option String

-- `Partial<ToasterToast>`: what is `none` is not given.
pub record Patch : Type 0 where
  pub id : Option String
  pub title : Option String
  pub description : Option String
  pub action : Option String
  pub open_ : Option Bool
  pub on_open_change : Option String

pub data Action : Type 0 where
  add_toast : Toast → Action
  update_toast : Patch → Action
  dismiss_toast : Option String → Action
  remove_toast : Option String → Action

-- A component that uses the store, by a number; what it was last told is in `notified`.
pub record Store : Type 0 where
  pub count : ℕ
  pub toasts : List Toast
  pub timeouts : List String
  pub timers : List String
  pub listeners : List ℕ
  pub notified : List (ℕ × List Toast)

abbrev pub contains : String → List String → Bool
contains k [] = false
contains k (x ∷ xs) = (x =ˢ k) || contains k xs

abbrev pub delete : String → List String → List String
delete k [] = []
delete k (x ∷ xs) = let rest = delete k xs in if x =ˢ k then xs else x ∷ rest

abbrev pub given {ℓ} : {A : Type ℓ} → Option A → Option A → Option A
given none old = old
given (some a) old = some a

abbrev pub id_or : Option String → String → String
id_or none old = old
id_or (some k) old = k

-- `o === k`
abbrev pub is_id : Option String → String → Bool
is_id none k = false
is_id (some j) k = k =ˢ j

-- `{ ...t, ...patch }`
abbrev pub merge : Toast → Patch → Toast
merge t p = record {
  id = id_or p.id t.id;
  title = given p.title t.title;
  description = given p.description t.description;
  action = given p.action t.action;
  open_ = given p.open_ t.open_;
  on_open_change = given p.on_open_change t.on_open_change;
}

-- A new timer calls back after `TOAST_REMOVE_DELAY`.
unfoldable pub add_to_remove_queue : String → Store → Store
add_to_remove_queue k s =
    if contains k s.timeouts
    then s
    else record s { timeouts = s.timeouts ++ k ∷ []; timers = s.timers ++ k ∷ [] }

-- `state.toasts.forEach((toast) => { addToRemoveQueue(toast.id) })`
unfoldable pub queue_all : List Toast → Store → Store
queue_all [] s = s
queue_all (t ∷ ts) s = queue_all ts (add_to_remove_queue t.id s)

-- The side effect of a dismissal; an empty id counts as none.
unfoldable pub queue : Option String → Store → Store
queue none s = queue_all s.toasts s
queue (some k) s = if is_empty k then queue_all s.toasts s else add_to_remove_queue k s

abbrev pub update_one : Patch → Toast → Toast
update_one p t = if is_id p.id t.id then merge t p else t

-- `t.id === toastId || toastId === undefined`
abbrev pub close_one : Option String → Toast → Toast
close_one none t = record t { open_ = some false }
close_one (some k) t = if t.id =ˢ k then record t { open_ = some false } else t

-- `state.toasts.filter((t) => t.id !== id)`
abbrev pub without : String → List Toast → List Toast
without k [] = []
without k (t ∷ ts) = let rest = without k ts in if t.id =ˢ k then rest else t ∷ rest

unfoldable pub reducer : Action → Store → Store
reducer (add_toast t) s = record s { toasts = take toast_limit (t ∷ s.toasts) }
reducer (update_toast p) s = record s { toasts = map (update_one p) s.toasts }
reducer (dismiss_toast k) s = record (queue k s) { toasts = map (close_one k) s.toasts }
reducer (remove_toast none) s = record s { toasts = [] }
reducer (remove_toast (some k)) s = record s { toasts = without k s.toasts }

-- `listeners.forEach((listener) => { listener(memoryState) })`
abbrev pub notify : Store → Store
notify s = record s { notified = s.notified ++ map (λ l. (l, s.toasts)) s.listeners }

unfoldable pub dispatch : Action → Store → Store
dispatch a s = notify (reducer a s)

-- `genId`
abbrev pub next_count : ℕ → ℕ
next_count n = (n + 1) % max_safe_integer

abbrev pub new_toast : String → Toast → Toast
new_toast k props = record props { id = k; open_ = some true; on_open_change = some k }

-- `toast(props)`; the id among the props is not read.
unfoldable pub toast : Toast → Store → Store
toast props s =
    let n = next_count s.count in
    dispatch (add_toast (new_toast (show_nat n) props)) (record s { count = n })

-- The `update` that `toast` returns.
unfoldable pub update : String → Patch → Store → Store
update k p s = dispatch (update_toast (record p { id = some k })) s

-- The `dismiss` that `toast` and `useToast` return.
unfoldable pub dismiss : Option String → Store → Store
dismiss k s = dispatch (dismiss_toast k) s

-- A timer calls back: `toastTimeouts.delete(toastId)`, then REMOVE_TOAST.
unfoldable pub fire : String → Store → Store
fire k s =
    if contains k s.timers
    then dispatch (remove_toast (some k))
        (record s { timers = delete k s.timers; timeouts = delete k s.timeouts })
    else s

-- A toast is opened or closed on the screen.
abbrev pub open_change : Option String → Bool → Store → Store
open_change none b s = s
open_change (some k) true s = s
open_change (some k) false s = dismiss (some k) s

-- The effect of `useToast`, and its cleanup, which takes out one entry.
abbrev pub subscribe : ℕ → Store → Store
subscribe n s = record s { listeners = s.listeners ++ n ∷ [] }

abbrev pub remove_listener : ℕ → List ℕ → List ℕ
remove_listener n [] = []
remove_listener n (l ∷ ls) = let rest = remove_listener n ls in if l == n then ls else l ∷ rest

abbrev pub unsubscribe : ℕ → Store → Store
unsubscribe n s = record s { listeners = remove_listener n s.listeners }

-- What may happen to the store, in any order.
pub data Event : Type 0 where
  toasted : Toast → Event
  updated : String → Patch → Event
  dismissed : Option String → Event
  fired : String → Event
  open_changed : Option String → Bool → Event
  mounted unmounted : ℕ → Event

unfoldable pub step : Event → Store → Store
step (toasted props) s = toast props s
step (updated k p) s = update k p s
step (dismissed k) s = dismiss k s
step (fired k) s = fire k s
step (open_changed k b) s = open_change k b s
step (mounted n) s = subscribe n s
step (unmounted n) s = unsubscribe n s

unfoldable pub run : List Event → Store → Store
run [] s = s
run (e ∷ es) s = run es (step e s)

abbrev pub initial : Store
initial = record {
  count = 0;
  toasts = [];
  timeouts = [];
  timers = [];
  listeners = [];
  notified = [];
}
