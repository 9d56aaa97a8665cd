-- ===== src/Player/Media/Tidy.antt =====
-- The object URLs of a hook whose loads end before their cleanup.
use motionmesh.Base.{
  ℕ, zero, suc, ◌≡◌, refl, Bool, true, false, ◌&&◌, Option, none, some, String, List, [], ◌∷◌,
  if◌then◌else◌, is_empty, str_eq, arith, Bool-cases, inl, inr,
}
use motionmesh.Base.Lists.{All}
use motionmesh.Player.Media.{
  Run, Hook, revoke_given, clean_run, cleanup, effect, render, finish_current, fail_current,
  fail_cancelled, MediaEvent, rendered, loaded, failed, late_loaded, late_failed, unmounted, step,
  run, mount,
}

abbrev pub own_url : Option Run → List ℕ
own_url none = []
own_url (some r) = elim r.object_url [ none ↦ [] | some u ↦ u ∷ [] ]

-- A run that still loads has made no object URL.
abbrev pub IsFresh : Option Run → Type 0
IsFresh none = Unit
IsFresh (some r) = r.is_loading ≡ true → r.object_url ≡ none

-- The object URLs that are not revoked are those of the current run.
pub record IsTidy (s : Hook) : Type 0 where
  pub own : s.live ≡ own_url s.current
  pub fresh : IsFresh s.current

clean_run-IsTidy :
    (o : Option Run) (s : Hook)
    → s.live ≡ own_url o
    → s.current ≡ o
    → ((clean_run o s).live ≡ []) × ((clean_run o s).current ≡ none)
clean_run-IsTidy none s own c = (own, c)
clean_run-IsTidy (some r) s own c = (revoke-own r.object_url own, refl)
  where
    revoke-own :
        (u : Option ℕ)
        → s.live ≡ (elim u [ none ↦ [] | some u ↦ u ∷ [] ])
        → revoke_given u s.live ≡ []
    revoke-own none e = e
    revoke-own (some u) e = rw e (ground arith)

effect-IsTidy : (s : Hook) → s.live ≡ [] → s.current ≡ none → IsTidy (effect s)
unfolding effect
effect-IsTidy s e c = elim (Bool-cases (is_empty s.source)) [
  | inl k ↦ rw k (record { own = rw (e, c) refl; fresh = rw c tt })
  | inr k ↦ rw k (record { own = e; fresh = λ h. refl })
]

-- The event is not the end of a load that was cleaned up.
abbrev pub IsTimely : MediaEvent → Type 0
IsTimely late_loaded = ⊥
IsTimely _ = Unit

loaded-IsTidy : (o : Option Run) (s : Hook) → s.current ≡ o → IsTidy s → IsTidy (finish_current o s)
loaded-IsTidy none s c v = v
loaded-IsTidy (some r) s c v = elim (Bool-cases r.is_loading) [
  | inl k ↦
      let fresh : r.object_url ≡ none = (rw c at v.fresh) k in
      let own : s.live ≡ own_url (some r) = rw c at v.own in
      let empty : s.live ≡ [] = rw fresh at own in
      rw k (record { own = rw empty refl; fresh = λ h. absurd cc })
  | inr k ↦ rw k v
]

failed-IsTidy : (o : Option Run) (s : Hook) → s.current ≡ o → IsTidy s → IsTidy (fail_current o s)
failed-IsTidy none s c v = v
failed-IsTidy (some r) s c v = record { own = rw c at v.own; fresh = λ h. absurd cc }

late_failed-IsTidy : (n : ℕ) (s : Hook) → IsTidy s → IsTidy (fail_cancelled n s)
late_failed-IsTidy zero s v = v
late_failed-IsTidy (suc n) s v = record { own = v.own; fresh = v.fresh }

render-IsTidy :
    (source token_params : String) (s : Hook) → IsTidy s → IsTidy (render source token_params s)
unfolding render cleanup
render-IsTidy source token_params s v =
    elim (Bool-cases (str_eq source s.source && str_eq token_params s.token_params)) [
      | inl same ↦ rw same v
      | inr other ↦
          let (empty, none_left) = clean_run-IsTidy s.current s v.own refl in
          rw other (
            effect-IsTidy (record (cleanup s) { source = source; token_params = token_params })
              empty none_left)
    ]

if-IsTidy : (b : Bool) (s t : Hook) → IsTidy s → IsTidy t → IsTidy (if b then s else t)
if-IsTidy true s t v w = v
if-IsTidy false s t v w = w

step-IsTidy : (e : MediaEvent) (s : Hook) → IsTimely e → IsTidy s → IsTidy (step e s)
unfolding step cleanup
step-IsTidy (rendered source token_params) s t v =
    if-IsTidy s.is_mounted (render source token_params s) s (render-IsTidy source token_params s v)
      v
step-IsTidy loaded s t v = loaded-IsTidy s.current s refl v
step-IsTidy failed s t v = failed-IsTidy s.current s refl v
step-IsTidy late_loaded s t v = absurd t
step-IsTidy late_failed s t v = late_failed-IsTidy s.cancelled s v
step-IsTidy unmounted s t v =
    let (empty, none_left) = clean_run-IsTidy s.current s v.own refl in
    record { own = rw (empty, none_left) refl; fresh = rw none_left tt }

run-IsTidy : (es : List MediaEvent) (s : Hook) → All IsTimely es → IsTidy s → IsTidy (run es s)
unfolding run
run-IsTidy [] s t v = v
run-IsTidy (e ∷ es) s (t, ts) v = run-IsTidy es (step e s) ts (step-IsTidy e s t v)

-- As long as no load ends after the cleanup of its run, a hook of the player keeps no object URL
-- but the one of its current run, from its first render on: at each time the URLs that were made
-- and not revoked are that one, or none.
pub run-mount-IsTidy :
    (source token_params : String) (es : List MediaEvent)
    → All IsTimely es
    → IsTidy (run es (mount source token_params))
unfolding mount
run-mount-IsTidy source token_params es t = run-IsTidy es _ t (effect-IsTidy _ refl refl)
