-- ===== src/Player/Urls/Signing.antt =====
-- An address is signed once.
use Prim.Native.String.append
use motionmesh.Base.{
  ℕ, ◌≡◌, ◌⊎◌, inl, inr, refl, ap, ◌∙◌, true, false, ◌||◌, String, List, [], ◌∷◌, ◌++◌, arith,
  is_empty, ◌⧺◌, codes, if◌then◌else◌, Bool-cases,
}
use motionmesh.Base.Texts.Decimal.{codes-append}
use motionmesh.Js.Exception.{Result, ok, thrown}
use motionmesh.Player.Process.{param}
use motionmesh.Player.Urls.{
  after_token, extract_token_params, begins, includes, xhr_setup, requested,
}

begins-append : (p s : List ℕ) → begins p (p ++ s) ≡ true
unfolding begins
begins-append [] s = refl
begins-append (c ∷ p) s = ground (arith, begins-append p s)

includes-begins : (p s : List ℕ) → begins p s ≡ true → includes p s ≡ true
unfolding includes
includes-begins p [] h = h
includes-begins p (c ∷ s) h = rw h refl

includes-append : (p a s : List ℕ) → includes p s ≡ true → includes p (a ++ s) ≡ true
unfolding includes
includes-append p [] s h = h
includes-append p (c ∷ a) s h = ground (arith, includes-append p a s h)

-- The signature is empty, or begins with its token.
extract_token_params-cases :
    (r : Result (List (String × String)))
    → (extract_token_params r ≡ "") ⊎ ((rest : String) × (extract_token_params r ≡ "token=" ⧺ rest))
unfolding extract_token_params
extract_token_params-cases (thrown e) = inl refl
extract_token_params-cases (ok params) =
    elim (Bool-cases (
      is_empty (param "token" params)
      || is_empty (param "expires" params)
      || is_empty (param "token_path" params))) [
        | inl m ↦ inl (rw m refl)
        | inr g ↦ inr (
          after_token (param "token" params) (param "expires" params) (param "token_path" params),
          rw g refl,
        )
      ]

includes-signed :
    (url separator rest : String)
    → includes (codes "token=") (codes (url ⧺ (separator ⧺ ("token=" ⧺ rest)))) ≡ true
includes-signed url separator rest =
    rw
      (
        codes-append url (separator ⧺ ("token=" ⧺ rest)),
        codes-append separator ("token=" ⧺ rest),
        codes-append "token=" rest,
      )
      (includes-append (codes "token=") (codes url) _ (
        includes-append (codes "token=") (codes separator) _ (
          includes-begins (codes "token=") (codes "token=" ++ codes rest)
            (begins-append (codes "token=") (codes rest)))))

signed_is_kept :
    (token_params url : String)
    → includes (codes "token=") (codes url) ≡ true
    → requested token_params url ≡ url
unfolding xhr_setup
signed_is_kept token_params url h = ground arith

unsigned_is_kept : (url : String) → requested "" url ≡ url
unfolding xhr_setup
unsigned_is_kept url = refl

is_empty-append : (s t : String) → is_empty s ≡ false → is_empty (s ⧺ t) ≡ false
is_empty-append String.[] t n = absurd (cc)
is_empty-append (String.◌∷◌ c s) t n = ap is_empty (append.cons c s t)

includes-requested :
    (url rest : String)
    → includes (codes "token=") (codes url) ≡ false
    → includes (codes "token=") (codes (requested ("token=" ⧺ rest) url)) ≡ true
unfolding xhr_setup
includes-requested url rest n =
    rw (n, is_empty-append "token=" rest refl)
      (includes-signed url (if includes (codes "?") (codes url) then "&" else "?") rest)

-- An address that was signed, or did not need to be, is left alone when it is set up again, as a
-- retry of the request does: the signature is never put on it twice.
pub requested-requested :
    (r : Result (List (String × String))) (url : String)
    → requested (extract_token_params r) (requested (extract_token_params r) url)
      ≡ requested (extract_token_params r) url
unfolding xhr_setup
requested-requested r url = elim (extract_token_params-cases r) [
  | inl e ↦ simp e (refl {a = url})
  | inr (rest, e) ↦ elim (Bool-cases (includes (codes "token=") (codes url))) [
    | inl has_it ↦
        ap (requested (extract_token_params r)) (signed_is_kept (extract_token_params r) url has_it)
    | inr lacks_it ↦
        signed_is_kept (extract_token_params r) (requested (extract_token_params r) url) (
          ap (λ q. includes (codes "token=") (codes (requested q url))) e
          ∙ includes-requested url rest lacks_it)
  ]
]
