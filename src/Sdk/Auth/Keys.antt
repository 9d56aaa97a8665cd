-- ===== src/Sdk/Auth/Keys.antt =====
-- Which texts pass for API keys.
use package.text.Mathlib.Text.{starts_with}
use package.text.Mathlib.TextEquality.{starts_with_iff}
use package.text.Mathlib.TextBridge.{IsPrefix}
use motionmesh.Base.{◌≡◌, refl, sym, ◌∙◌, true, String, ◌↔◌, ◌⊎◌, inl, inr, Bool-cases}
use motionmesh.Sdk.Auth.{verify_api_key_signature}

-- A text passes exactly when it begins with one of the two prefixes.
pub verify_api_key_signature_iff :
    (key : String)
    → (verify_api_key_signature key ≡ true) ↔ (IsPrefix "mot_live_" key ⊎ IsPrefix "mot_test_" key)
unfolding verify_api_key_signature
verify_api_key_signature_iff String.[] = (
  λ h. cc,
  λ h. elim h [
    | inl p ↦ (starts_with_iff "" "mot_live_").1 p
    | inr p ↦ (starts_with_iff "" "mot_test_").1 p
  ],
)
verify_api_key_signature_iff (String.◌∷◌ c s) =
    let key = String.◌∷◌ c s in
    let live = starts_with_iff key "mot_live_" in
    let test = starts_with_iff key "mot_test_" in
    elim (Bool-cases (starts_with key "mot_live_")) [
      | inl l ↦ rw l (λ h. inl (live.0 l), λ h. refl)
      | inr nl ↦ elim (Bool-cases (starts_with key "mot_test_")) [
        | inl t ↦ rw (nl, t) (λ h. inr (test.0 t), λ h. refl)
        | inr nt ↦
            rw (nl, nt)
              (λ h. cc, λ h. elim h [ inl p ↦ sym nl ∙ live.1 p | inr p ↦ sym nt ∙ test.1 p ])
      ]
    ]
