-- ===== src/Player/Country/Caching.antt =====
-- When the country is asked for again, and when not.
use motionmesh.Base.{
  ℕ, ◌+◌, ◌≡◌, inl, inr, refl, ap, ◌∙◌, true, false, Option, none, some, String, arith, ltb,
  if◌then◌else◌, Bool-cases,
}
use motionmesh.Js.Value.{Value, undefined, null, str, get, is_truthy, to_number, to_json}
use motionmesh.Js.Exception.{Result, ok, thrown}
use motionmesh.Player.Country.{
  Browser, State, CountryResponse, is_after, storage_denied, Found, served, missed, escaped,
  look_up, ask_service, conclude, get_user_country, new_entry, ttl_ms, discard, use_entry,
  read_entry, take_text,
}

-- A country that a call gives is the one in memory after it.
abbrev Kept : Result Value × State → Type 0
Kept (ok country, s) = is_truthy country ≡ true → s.cached ≡ country
Kept (thrown e, s) = Unit

abbrev KeptFound : Found → Type 0
KeptFound (served v s) = s.cached ≡ v
KeptFound (missed s) = Unit
KeptFound (escaped e s) = Unit

Kept-null : (s : State) → Kept (ok null, s)
Kept-null s t = cc

take_text-Kept :
    (b : Browser) (now : ℕ) (t : Result String) (s : State) → Kept (take_text b now t s)
take_text-Kept b now (thrown e) s = Kept-null s
take_text-Kept b now (ok t) s = elim (Bool-cases b.has_window) [
  | inl w ↦ elim (Bool-cases b.storage_works) [
    | inl k ↦ rw (w, k) (λ _. refl)
    | inr k ↦ rw (w, k) (λ t. cc)
  ]
  | inr w ↦ rw w (λ _. refl)
]

ask_service-Kept :
    (b : Browser) (now : ℕ) (answer : Result CountryResponse) (s : State)
    → Kept (ask_service b now answer s)
unfolding ask_service
ask_service-Kept b now (thrown e) s = λ t. cc
ask_service-Kept b now (ok r) s = elim (Bool-cases r.is_ok) [
  | inl k ↦ rw k (take_text-Kept b now r.text _)
  | inr k ↦ rw k (λ t. cc)
]

discard-KeptFound : (b : Browser) (s : State) → KeptFound (discard b s)
discard-KeptFound b s = elim (Bool-cases b.storage_works) [ inl k ↦ rw k tt | inr k ↦ rw k tt ]

use_entry-KeptFound : (now : ℕ) (s : State) (v : Value) → KeptFound (use_entry now s v)
use_entry-KeptFound now s v = elim (Bool-cases (is_after (to_number (get "expiresAt" v)) now)) [
  | inl k ↦ rw k refl
  | inr k ↦ rw k tt
]

read_entry-KeptFound :
    (b : Browser) (now : ℕ) (s : State) (raw : Option (Result Value))
    → KeptFound (read_entry b now s raw)
read_entry-KeptFound b now s none = tt
read_entry-KeptFound b now s (some (thrown e)) = discard-KeptFound b s
read_entry-KeptFound b now s (some (ok undefined)) = discard-KeptFound b s
read_entry-KeptFound b now s (some (ok null)) = discard-KeptFound b s
read_entry-KeptFound b now s (some (ok v)) = use_entry-KeptFound now s v

look_up-KeptFound : (b : Browser) (now : ℕ) (s : State) → KeptFound (look_up b now s)
unfolding look_up
look_up-KeptFound b now s = elim (Bool-cases b.has_window) [
  | inl w ↦ elim (Bool-cases b.storage_works) [
    | inl k ↦ simp (w, k) (read_entry-KeptFound b now s s.stored)
    | inr k ↦ rw (w, k) tt
  ]
  | inr w ↦ rw w tt
]

conclude-Kept :
    (b : Browser) (now : ℕ) (answer : Result CountryResponse) (f : Found)
    → KeptFound f
    → Kept (conclude b now answer f)
conclude-Kept b now answer (served v s) k = λ _. k
conclude-Kept b now answer (missed s) k = ask_service-Kept b now answer s
conclude-Kept b now answer (escaped e s) k = tt

in_memory :
    (b : Browser) (now : ℕ) (answer : Result CountryResponse) (s : State)
    → is_truthy s.cached ≡ true
    → get_user_country b now answer s ≡ (ok s.cached, s)
unfolding get_user_country
in_memory b now answer s t = rw t

not_in_memory :
    (b : Browser) (now : ℕ) (answer : Result CountryResponse) (s : State)
    → is_truthy s.cached ≡ false
    → get_user_country b now answer s ≡ conclude b now answer (look_up b now s)
unfolding get_user_country
not_in_memory b now answer s t = rw (t, look_up)

get_user_country-Kept :
    (b : Browser) (now : ℕ) (answer : Result CountryResponse) (s : State)
    → Kept (get_user_country b now answer s)
get_user_country-Kept b now answer s = elim (Bool-cases (is_truthy s.cached)) [
  | inl t ↦ rw (in_memory b now answer s t) (λ _. refl)
  | inr t ↦
      rw (not_in_memory b now answer s t)
        (conclude-Kept b now answer (look_up b now s) (look_up-KeptFound b now s))
]

Kept-again :
    (p : Result Value × State) (country : Value) (b : Browser) (later : ℕ)
    (answer : Result CountryResponse)
    → Kept p
    → is_truthy country ≡ true
    → p.0 ≡ ok country
    → get_user_country b later answer p.1 ≡ (ok country, p.1)
Kept-again (ok c, s) country b later answer k t e =
    let same : c ≡ country = cc in
    let held : s.cached ≡ country = k (rw same t) ∙ same in
    in_memory b later answer s (rw held t) ∙ ap (λ v. (ok v, s)) held
Kept-again (thrown x, s) country b later answer k t e = cc

-- A country that is given stays: any later call, at any time, gives the same country, changes
-- nothing and asks nobody.
pub get_user_country_again :
    (b b' : Browser) (now later : ℕ) (answer answer' : Result CountryResponse) (s : State)
    (country : Value)
    → is_truthy country ≡ true
    → (get_user_country b now answer s).0 ≡ ok country
    → get_user_country b' later answer' (get_user_country b now answer s).1
      ≡ (ok country, (get_user_country b now answer s).1)
get_user_country_again b b' now later answer answer' s country t e =
    Kept-again (get_user_country b now answer s) country b' later answer'
      (get_user_country-Kept b now answer s) t e

-- In a browser whose `localStorage` works, after a reload of the page, when nothing is in memory, an entry that was stored at the time
-- `stored_at` serves its country for a week, and asks nobody; from then on the service is asked,
-- and the entry has been removed before.
pub get_user_country_reload :
    (b : Browser) (now stored_at : ℕ) (answer : Result CountryResponse) (s : State)
    (country : String)
    → b.has_window ≡ true
    → b.storage_works ≡ true
    → is_truthy s.cached ≡ false
    → s.stored ≡ some (ok (new_entry stored_at country))
    → get_user_country b now answer s ≡ (
        if ltb now (stored_at + ttl_ms)
        then (ok (str country), record s { cached = str country })
        else ask_service b now answer (record s { stored = none }))
unfolding look_up to_json
get_user_country_reload b now stored_at answer s country w k t e =
    not_in_memory b now answer s t ∙ rw (w, k, e) (ground arith)

-- In a browser where `localStorage` throws, the call throws as well, unless the country is in memory: the
-- `catch` that is to ignore it touches `localStorage` again, and the service is never asked.
pub get_user_country_denied :
    (b : Browser) (now : ℕ) (answer : Result CountryResponse) (s : State)
    → b.has_window ≡ true
    → b.storage_works ≡ false
    → is_truthy s.cached ≡ false
    → get_user_country b now answer s ≡ (thrown storage_denied, s)
unfolding look_up
get_user_country_denied b now answer s w k t = not_in_memory b now answer s t ∙ rw (w, k)
