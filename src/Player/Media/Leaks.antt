-- ===== src/Player/Media/Leaks.antt =====
-- The object URLs that a hook of the player never revokes.
use motionmesh.Base.{
  ℕ, zero, suc, ◌<◌, ◌≡◌, ◌≢◌, Bool, true, false, ◌&&◌, ◌||◌, Option, none, some, String, List, [],
  ◌∷◌, ◌++◌, if◌then◌else◌, is_empty, str_eq, ◌==◌, arith, Bool-cases, inl, inr,
}
use motionmesh.Player.Media.{
  Run, Hook, revoke, revoke_given, clean_run, cleanup, effect, render, finish_current, fail_current,
  finish_cancelled, fail_cancelled, MediaEvent, rendered, loaded, failed, late_loaded, late_failed,
  unmounted, step, run, mount,
}
use motionmesh.Player.Media.Numbers.{IsOld, IsOldRun, IsNumbered, effect-IsNumbered, run-IsNumbered}

abbrev pub is_live : ℕ → List ℕ → Bool
is_live u [] = false
is_live u (v ∷ vs) = (v == u) || is_live u vs

is_live-append : (u v : ℕ) (vs : List ℕ) → is_live u vs ≡ true → is_live u (vs ++ v ∷ []) ≡ true
is_live-append u v [] h = absurd cc
is_live-append u v (w ∷ vs) h = ground (arith, is_live-append u v vs)

is_live-last : (u : ℕ) (vs : List ℕ) → is_live u (vs ++ u ∷ []) ≡ true
is_live-last u [] = ground arith
is_live-last u (w ∷ vs) = ground (arith, is_live-last u vs)

is_live-revoke :
    (u v : ℕ) (vs : List ℕ) → u ≢ v → is_live u vs ≡ true → is_live u (revoke v vs) ≡ true
is_live-revoke u v [] n h = h
is_live-revoke u v (w ∷ vs) n h = ground (arith, is_live-revoke u v vs n)

-- The object URL of a run differs from `u`.
abbrev pub IsOther : ℕ → Option ℕ → Type 0
IsOther u none = Unit
IsOther u (some v) = u ≢ v

abbrev pub IsOtherRun : ℕ → Option Run → Type 0
IsOtherRun u none = Unit
IsOtherRun u (some r) = IsOther u r.object_url

-- An object URL that is not revoked and that no cleanup will revoke.
pub record IsLost (u : ℕ) (s : Hook) : Type 0 where
  pub live : is_live u s.live ≡ true
  pub other : IsOtherRun u s.current
  pub old : u < s.made

revoke_given-lost :
    (u : ℕ) (o : Option ℕ) (vs : List ℕ)
    → IsOther u o
    → is_live u vs ≡ true
    → is_live u (revoke_given o vs) ≡ true
revoke_given-lost u none vs n h = h
revoke_given-lost u (some v) vs n h = is_live-revoke u v vs n h

clean_run-IsLost :
    (u : ℕ) (o : Option Run) (s : Hook) → IsOtherRun u o → IsLost u s → IsLost u (clean_run o s)
clean_run-IsLost u none s n v = v
clean_run-IsLost u (some r) s n v = record {
  live = revoke_given-lost u r.object_url s.live n v.live;
  other = tt;
  old = v.old;
}

effect-IsLost : (u : ℕ) (s : Hook) → IsLost u s → IsLost u (effect s)
unfolding effect
effect-IsLost u s v = elim (Bool-cases (is_empty s.source)) [
  | inl k ↦ rw k v
  | inr k ↦ rw k (record { live = v.live; other = tt; old = v.old })
]

finish_current-IsLost :
    (u : ℕ) (o : Option Run) (s : Hook) → IsLost u s → IsLost u (finish_current o s)
finish_current-IsLost u none s v = v
finish_current-IsLost u (some r) s v = elim (Bool-cases r.is_loading) [
  | inl k ↦ rw k (record {
    live = is_live-append u s.made s.live v.live;
    other = λ e. absurd (omega (arith, v.old, e));
    old = omega (arith, v.old);
  })
  | inr k ↦ rw k v
]

fail_current-IsLost :
    (u : ℕ) (o : Option Run) (s : Hook) → IsOtherRun u o → IsLost u s → IsLost u (fail_current o s)
fail_current-IsLost u none s n v = v
fail_current-IsLost u (some r) s n v = record { live = v.live; other = n; old = v.old }

finish_cancelled-IsLost : (u n : ℕ) (s : Hook) → IsLost u s → IsLost u (finish_cancelled n s)
finish_cancelled-IsLost u zero s v = v
finish_cancelled-IsLost u (suc n) s v = record {
  live = is_live-append u s.made s.live v.live;
  other = v.other;
  old = omega (arith, v.old);
}

fail_cancelled-IsLost : (u n : ℕ) (s : Hook) → IsLost u s → IsLost u (fail_cancelled n s)
fail_cancelled-IsLost u zero s v = v
fail_cancelled-IsLost u (suc n) s v = record { live = v.live; other = v.other; old = v.old }

render-IsLost :
    (u : ℕ) (source token_params : String) (s : Hook)
    → IsLost u s
    → IsLost u (render source token_params s)
unfolding render cleanup
render-IsLost u source token_params s v =
    elim (Bool-cases (str_eq source s.source && str_eq token_params s.token_params)) [
      | inl same ↦ rw same v
      | inr differ ↦
          let c = clean_run-IsLost u s.current s v.other v in
          rw differ (effect-IsLost u _ (record { live = c.live; other = c.other; old = c.old }))
    ]

if-IsLost :
    (u : ℕ) (b : Bool) (s t : Hook) → IsLost u s → IsLost u t → IsLost u (if b then s else t)
if-IsLost u true s t v w = v
if-IsLost u false s t v w = w

step-IsLost : (u : ℕ) (e : MediaEvent) (s : Hook) → IsLost u s → IsLost u (step e s)
unfolding step cleanup
step-IsLost u (rendered source token_params) s v =
    if-IsLost u s.is_mounted (render source token_params s) s
      (render-IsLost u source token_params s v) v
step-IsLost u loaded s v = finish_current-IsLost u s.current s v
step-IsLost u failed s v = fail_current-IsLost u s.current s v.other v
step-IsLost u late_loaded s v = finish_cancelled-IsLost u s.cancelled s v
step-IsLost u late_failed s v = fail_cancelled-IsLost u s.cancelled s v
step-IsLost u unmounted s v =
    let c = clean_run-IsLost u s.current s v.other v in
    record { live = c.live; other = c.other; old = c.old }

run-IsLost : (u : ℕ) (es : List MediaEvent) (s : Hook) → IsLost u s → IsLost u (run es s)
unfolding run
run-IsLost u [] s v = v
run-IsLost u (e ∷ es) s v = run-IsLost u es (step e s) (step-IsLost u e s v)

IsOld-IsOther : (n : ℕ) (o : Option ℕ) → IsOld n o → IsOther n o
IsOld-IsOther n none h = h
IsOld-IsOther n (some u) h = λ e. absurd (omega (arith, h, e))

IsOldRun-IsOtherRun : (n : ℕ) (o : Option Run) → IsOldRun n o → IsOtherRun n o
IsOldRun-IsOtherRun n none h = h
IsOldRun-IsOtherRun n (some r) h = IsOld-IsOther n r.object_url h

late_loaded-IsLost :
    (n : ℕ) (s : Hook) → IsNumbered s → s.cancelled ≡ suc n → IsLost s.made (step late_loaded s)
unfolding step
late_loaded-IsLost n s v c = rw c (record {
  live = is_live-last s.made s.live;
  other = IsOldRun-IsOtherRun s.made s.current v;
  old = omega arith;
})

-- A load that ends after the cleanup of its run leaves an object URL behind. Whatever a hook has
-- been through since its first render, if a run of its effect was cleaned up while it loads and
-- the load then succeeds, the object URL that is made for it is never revoked, whatever follows.
pub late_loaded-kept :
    (source token_params : String) (before after_ : List MediaEvent) (n : ℕ)
    → (run before (mount source token_params)).cancelled ≡ suc n
    → is_live
        (run before (mount source token_params)).made
        (run after_ (step late_loaded (run before (mount source token_params)))).live
      ≡ true
unfolding mount
late_loaded-kept source token_params before after_ n c =
    let s = run before (mount source token_params) in
    (run-IsLost s.made after_ (step late_loaded s)
      (late_loaded-IsLost n s (run-IsNumbered before _ (effect-IsNumbered _ tt)) c)).live
