-- ===== src/Player/Media/Numbers.antt =====
-- The object URL of a run of a hook is one that was made before.
use motionmesh.Base.{
  ℕ, zero, suc, ◌<◌, ◌≡◌, refl, Bool, true, false, ◌&&◌, Option, none, some, String, List, [], ◌∷◌,
  if◌then◌else◌, is_empty, str_eq, arith, Bool-cases, inl, inr,
}
use motionmesh.Player.Media.{
  Run, Hook, clean_run, cleanup, effect, render, finish_current, fail_current, finish_cancelled,
  fail_cancelled, MediaEvent, rendered, loaded, failed, late_loaded, late_failed, unmounted, step,
  run,
}

-- The object URL of a run has a number that was given.
abbrev pub IsOld : ℕ → Option ℕ → Type 0
IsOld n none = Unit
IsOld n (some u) = u < n

abbrev pub IsOldRun : ℕ → Option Run → Type 0
IsOldRun n none = Unit
IsOldRun n (some r) = IsOld n r.object_url

IsOld-suc : (n : ℕ) (o : Option ℕ) → IsOld n o → IsOld (suc n) o
IsOld-suc n none h = h
IsOld-suc n (some u) h = omega (arith, h)

IsOldRun-suc : (n : ℕ) (o : Option Run) → IsOldRun n o → IsOldRun (suc n) o
IsOldRun-suc n none h = h
IsOldRun-suc n (some r) h = IsOld-suc n r.object_url h

abbrev pub IsNumbered : Hook → Type 0
IsNumbered s = IsOldRun s.made s.current

clean_run-IsNumbered : (o : Option Run) (s : Hook) → IsNumbered s → IsNumbered (clean_run o s)
clean_run-IsNumbered none s v = v
clean_run-IsNumbered (some r) s v = tt

pub effect-IsNumbered : (s : Hook) → IsNumbered s → IsNumbered (effect s)
unfolding effect
effect-IsNumbered s v = elim (Bool-cases (is_empty s.source)) [ inl k ↦ rw k v | inr k ↦ rw k tt ]

finish_current-IsNumbered :
    (o : Option Run) (s : Hook) → IsNumbered s → IsNumbered (finish_current o s)
finish_current-IsNumbered none s v = v
finish_current-IsNumbered (some r) s v = elim (Bool-cases r.is_loading) [
  | inl k ↦ rw k (omega arith)
  | inr k ↦ rw k v
]

fail_current-IsNumbered :
    (o : Option Run) (s : Hook) → s.current ≡ o → IsNumbered s → IsNumbered (fail_current o s)
fail_current-IsNumbered none s c v = v
fail_current-IsNumbered (some r) s c v = rw c at v

finish_cancelled-IsNumbered : (n : ℕ) (s : Hook) → IsNumbered s → IsNumbered (finish_cancelled n s)
finish_cancelled-IsNumbered zero s v = v
finish_cancelled-IsNumbered (suc n) s v = IsOldRun-suc s.made s.current v

fail_cancelled-IsNumbered : (n : ℕ) (s : Hook) → IsNumbered s → IsNumbered (fail_cancelled n s)
fail_cancelled-IsNumbered zero s v = v
fail_cancelled-IsNumbered (suc n) s v = v

render-IsNumbered :
    (source token_params : String) (s : Hook)
    → IsNumbered s
    → IsNumbered (render source token_params s)
unfolding render cleanup
render-IsNumbered source token_params s v =
    elim (Bool-cases (str_eq source s.source && str_eq token_params s.token_params)) [
      | inl same ↦ rw same v
      | inr differ ↦ rw differ (effect-IsNumbered _ (clean_run-IsNumbered s.current s v))
    ]

if-IsNumbered :
    (b : Bool) (s t : Hook) → IsNumbered s → IsNumbered t → IsNumbered (if b then s else t)
if-IsNumbered true s t v w = v
if-IsNumbered false s t v w = w

step-IsNumbered : (e : MediaEvent) (s : Hook) → IsNumbered s → IsNumbered (step e s)
unfolding step cleanup
step-IsNumbered (rendered source token_params) s v =
    if-IsNumbered s.is_mounted (render source token_params s) s
      (render-IsNumbered source token_params s v) v
step-IsNumbered loaded s v = finish_current-IsNumbered s.current s v
step-IsNumbered failed s v = fail_current-IsNumbered s.current s refl v
step-IsNumbered late_loaded s v = finish_cancelled-IsNumbered s.cancelled s v
step-IsNumbered late_failed s v = fail_cancelled-IsNumbered s.cancelled s v
step-IsNumbered unmounted s v = clean_run-IsNumbered s.current s v

pub run-IsNumbered : (es : List MediaEvent) (s : Hook) → IsNumbered s → IsNumbered (run es s)
unfolding run
run-IsNumbered [] s v = v
run-IsNumbered (e ∷ es) s v = run-IsNumbered es (step e s) (step-IsNumbered e s v)
