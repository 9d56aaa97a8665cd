-- ===== src/Dashboard/Toast/Draining.antt =====
-- What is left of the toasts when nothing more is asked for and the pending timers have fired.
use package.text.Mathlib.Text.{◌==◌ as ◌=ˢ◌}
use package.text.Mathlib.TextEquality.{eq_iff}
use package.text.Mathlib.TextPositions.{eq_refl}
use motionmesh.Base.{
  ◌≡◌, ◌≢◌, ◌∙◌, refl, true, String, List, [], ◌∷◌, map, arith, Bool-cases, inl, inr,
}
use motionmesh.Base.Lists.{All}
use motionmesh.Dashboard.Toast.{
  Toast, Store, contains, without, reducer, dispatch, fire, fired, step, run,
}
use motionmesh.Dashboard.Toast.Invariant.{IsValid, run-IsValid}
use motionmesh.Dashboard.Toast.Lifecycle.{without-Absent}

without-All : (P : Toast → Type 0) (k : String) (ts : List Toast) → All P ts → All P (without k ts)
without-All P k [] h = tt
without-All P k (t ∷ ts) (p, h) = elim (Bool-cases (t.id =ˢ k)) [
  | inl same ↦ rw same (without-All P k ts h)
  | inr other ↦ rw other (p, without-All P k ts h)
]

-- The first timer fires, and the rest is pending.
fire-first :
    (k : String) (ks : List String) (s : Store)
    → s.timers ≡ k ∷ ks
    → ((fire k s).timers ≡ ks) × ((fire k s).toasts ≡ without k s.toasts)
unfolding fire dispatch reducer
fire-first k ks s e = rw (e, eq_refl k) (refl, refl)

abbrev pub fire_all : List String → Store → Store
fire_all ks s = run (map fired ks) s

fire_all-timers : (ks : List String) (s : Store) → s.timers ≡ ks → (fire_all ks s).timers ≡ []
unfolding run step
fire_all-timers [] s e = e
fire_all-timers (k ∷ ks) s e = fire_all-timers ks (fire k s) (fire-first k ks s e).0

fire_all-All :
    (P : Toast → Type 0) (ks : List String) (s : Store)
    → s.timers ≡ ks
    → All P s.toasts
    → All P (fire_all ks s).toasts
unfolding run step
fire_all-All P [] s e h = h
fire_all-All P (k ∷ ks) s e h =
    let (e', t) = fire-first k ks s e in
    fire_all-All P ks (fire k s) e' (rw t (without-All P k s.toasts h))

fire_all-gone :
    (j : String) (ks : List String) (s : Store)
    → s.timers ≡ ks
    → contains j ks ≡ true
    → All (λ t. t.id ≢ j) (fire_all ks s).toasts
unfolding run step
fire_all-gone j [] s e c = absurd cc
fire_all-gone j (k ∷ ks) s e c =
    let (e', t) = fire-first k ks s e in
    elim (Bool-cases (k =ˢ j)) [
      | inl same ↦
          let left : All (λ t. t.id ≢ j) (fire k s).toasts =
            rw (t, (eq_iff k j).0 same) (without-Absent j s.toasts) in
          fire_all-All (λ t. t.id ≢ j) ks (fire k s) e' left
      | inr other ↦ fire_all-gone j ks (fire k s) e' (ground arith)
    ]

fire_all-IsValid : (ks : List String) (s : Store) → IsValid s → IsValid (fire_all ks s)
fire_all-IsValid ks s v = run-IsValid (map fired ks) s v

-- The timers run out. If nothing new happens to a valid store and its pending timers fire, one
-- after the other, none is left, the map of timers is empty, and no toast is left whose timer was
-- pending.
pub fire_all-drains :
    (s : Store)
    → IsValid s
    → let s' = fire_all s.timers s in
      (s'.timers ≡ [])
      × (s'.timeouts ≡ [])
      × ((k : String) → contains k s.timers ≡ true → All (λ t. t.id ≢ k) s'.toasts)
fire_all-drains s v =
    let none_left = fire_all-timers s.timers s refl in
    (
      none_left,
      (fire_all-IsValid s.timers s v).queue.matched ∙ none_left,
      (λ k c. fire_all-gone k s.timers s refl c),
    )
