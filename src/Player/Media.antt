-- ===== src/Player/Media.antt =====
-- sdk/js/packages/player/src/react/index.tsx, the hooks useSrtAsVttUrl and useSignedThumbnailVtt:
-- each loads a file, makes an object URL of it and revokes the URL in the cleanup of its effect.
-- Object URLs are numbered in the order in which they are made. Both hooks are this machine: the
-- effect depends on an address and, for the thumbnails, on the signature.
pub mod Tidy
pub mod Numbers
pub mod Leaks
use motionmesh.Base.{
  ℕ, zero, suc, ◌+◌, Bool, true, false, not, ◌&&◌, Option, none, some, String, List, [], ◌∷◌, ◌++◌,
  if◌then◌else◌, is_empty, str_eq, ◌==◌,
}

-- The last run of the effect: it has no `objectUrl` until its file is loaded.
pub record Run : Type 0 where
  pub is_loading : Bool
  pub object_url : Option ℕ

-- `shown` is the state of the hook, `current` the run whose cleanup has not run, `cancelled` how
-- many runs were cleaned up and still load, `live` the object URLs made and not revoked.
pub record Hook : Type 0 where
  pub source : String
  pub token_params : String
  pub is_mounted : Bool
  pub shown : Option ℕ
  pub current : Option Run
  pub cancelled : ℕ
  pub made : ℕ
  pub live : List ℕ

-- `URL.revokeObjectURL(url)`
abbrev pub revoke : ℕ → List ℕ → List ℕ
revoke u [] = []
revoke u (v ∷ vs) = let rest = revoke u vs in if v == u then rest else v ∷ rest

abbrev pub revoke_given : Option ℕ → List ℕ → List ℕ
revoke_given none live = live
revoke_given (some u) live = revoke u live

-- The cleanup of the effect: `cancelled = true; if (objectUrl) URL.revokeObjectURL(objectUrl)`.
abbrev pub clean_run : Option Run → Hook → Hook
clean_run none s = s
clean_run (some r) s = record s {
  current = none;
  cancelled = if r.is_loading then suc s.cancelled else s.cancelled;
  live = revoke_given r.object_url s.live;
}

unfoldable pub cleanup : Hook → Hook
cleanup s = clean_run s.current s

-- The effect: nothing for an empty address.
unfoldable pub effect : Hook → Hook
effect s =
    if is_empty s.source
    then s
    else record s { current = some (record { is_loading = true; object_url = none }) }

-- A render with these dependencies; the effect runs again only where one differs.
unfoldable pub render : String → String → Hook → Hook
render source token_params s =
    if str_eq source s.source && str_eq token_params s.token_params
    then s
    else effect (record (cleanup s) { source = source; token_params = token_params })

-- The file of the current run is loaded: an object URL is made and shown.
abbrev pub finish : Run → Hook → Hook
finish r s =
    if r.is_loading
    then record s {
      current = some (record { is_loading = false; object_url = some s.made });
      shown = some s.made;
      made = suc s.made;
      live = s.live ++ s.made ∷ [];
    }
    else s

abbrev pub finish_current : Option Run → Hook → Hook
finish_current none s = s
finish_current (some r) s = finish r s

-- Its load fails: the error is logged.
abbrev pub fail_current : Option Run → Hook → Hook
fail_current none s = s
fail_current (some r) s = record s { current = some (record r { is_loading = false }) }

-- A run that was cleaned up loads its file all the same: the object URL is made, and only
-- `setVttUrl` is left out.
abbrev pub finish_cancelled : ℕ → Hook → Hook
finish_cancelled zero s = s
finish_cancelled (suc n) s = record s {
  cancelled = n;
  made = suc s.made;
  live = s.live ++ s.made ∷ [];
}

abbrev pub fail_cancelled : ℕ → Hook → Hook
fail_cancelled zero s = s
fail_cancelled (suc n) s = record s { cancelled = n }

-- What may happen to a hook; the ends of loads come in any order.
pub data MediaEvent : Type 0 where
  rendered : String → String → MediaEvent
  loaded : MediaEvent
  failed : MediaEvent
  late_loaded : MediaEvent
  late_failed : MediaEvent
  unmounted : MediaEvent

unfoldable pub step : MediaEvent → Hook → Hook
step (rendered source token_params) s =
    let s' = render source token_params s in if s.is_mounted then s' else s
step loaded s = finish_current s.current s
step failed s = fail_current s.current s
step late_loaded s = finish_cancelled s.cancelled s
step late_failed s = fail_cancelled s.cancelled s
step unmounted s = record (cleanup s) { is_mounted = false }

unfoldable pub run : List MediaEvent → Hook → Hook
run [] s = s
run (e ∷ es) s = run es (step e s)

-- The hook after its first render.
unfoldable pub mount : String → String → Hook
mount source token_params = effect (record {
  source = source;
  token_params = token_params;
  is_mounted = true;
  shown = none;
  current = none;
  cancelled = 0;
  made = 0;
  live = [];
})
