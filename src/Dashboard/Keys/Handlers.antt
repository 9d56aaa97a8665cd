-- ===== src/Dashboard/Keys/Handlers.antt =====
-- What creating and revoking a key do to the page.
use package.text.Mathlib.TextPositions.{eq_refl}
use motionmesh.Base.{
  ℕ, ◌≡◌, refl, Bool, true, false, ◌||◌, some, String, List, [], ◌∷◌, arith, is_empty, ◌⧺◌, str_eq,
  show_nat, inl,
}
use motionmesh.Player.Country.{trim}
use motionmesh.Sdk.Auth.{verify_api_key_signature}
use motionmesh.Sdk.Auth.Keys.{verify_api_key_signature_iff}
use motionmesh.Dashboard.Keys.{
  ApiKey, Page, keys_of, full_key_of, masked_of, new_key, handle_create, without_key, handle_revoke,
}

abbrev pub has_key : String → List ApiKey → Bool
has_key id [] = false
has_key id (k ∷ ks) = str_eq k.id id || has_key id ks

without_key-has_key :
    (id : String) (ks : List ApiKey) → has_key id ks ≡ false → without_key id ks ≡ ks
unfolding without_key
without_key-has_key id [] n = refl
without_key-has_key id (k ∷ ks) n = ground (arith, without_key-has_key id ks)

full_key_of-verifies :
    (random random' : String) → verify_api_key_signature (full_key_of random random') ≡ true
unfolding full_key_of
full_key_of-verifies random random' =
    (verify_api_key_signature_iff (full_key_of random random')).1 (inl (random ⧺ random', refl))

-- A key with a name that is not blank is shown in full, in a form that the SDK takes for an
-- API key, and stands first in the list with the mask of its last four characters.
pub handle_create-shows_key :
    (random random' : String) (now : ℕ) (created_at : String) (p : Page)
    → is_empty (trim p.new_key_name) ≡ false
    → (full_key : String) × (k : ApiKey) × ((handle_create random random' now created_at
          p).newly_created_key
        ≡ some full_key)
      × (verify_api_key_signature full_key ≡ true)
      × ((handle_create random random' now created_at p).cached_keys
          ≡ some (k ∷ keys_of p.cached_keys))
      × (k.name ≡ p.new_key_name)
      × (k.masked_value ≡ masked_of full_key)
unfolding handle_create
handle_create-shows_key random random' now created_at p n =
    let full_key = full_key_of random random' in
    (
      full_key,
      new_key full_key now created_at p,
      rw n refl,
      full_key_of-verifies random random',
      rw n refl,
      refl,
      refl,
    )

-- A key that is created, with a name that is not blank, and then revoked leaves the list as it was before, unless the list already had
-- a key of the same millisecond.
pub handle_revoke-handle_create :
    (random random' : String) (now : ℕ) (created_at : String) (p : Page)
    → is_empty (trim p.new_key_name) ≡ false
    → has_key ("key_" ⧺ show_nat now) (keys_of p.cached_keys) ≡ false
    → keys_of
        (handle_revoke
          ("key_" ⧺ show_nat now)
          (handle_create random random' now created_at p)).cached_keys
      ≡ keys_of p.cached_keys
unfolding handle_create handle_revoke without_key
handle_revoke-handle_create random random' now created_at p n absent =
    rw (n, eq_refl ("key_" ⧺ show_nat now))
      (without_key-has_key ("key_" ⧺ show_nat now) (keys_of p.cached_keys) absent)
