-- ===== src/Dashboard/Navigation/Active.antt =====
-- Which items of the navigation are active.
use package.text.Mathlib.TextEquality.{eq_iff}
use motionmesh.Base.{
  ℕ, zero, suc, ◌+◌, ◌*◌, ◌≤◌, ◌<◌, ◌≡◌, ◌≢◌, refl, sym, ap, ◌∙◌, true, String, List, [], ◌∷◌,
  arith, codes, length, Bool-cases, inl, inr,
}
use motionmesh.Base.Lists.{All}
use motionmesh.Player.Urls.{begins}
use motionmesh.Dashboard.Navigation.{
  Match, exactly, below, matches, NavItem, sidebar_items, active_items,
}

-- The code point at an index, or 0 past the end.
abbrev pub at : ℕ → List ℕ → ℕ
at n [] = 0
at zero (c ∷ s) = c
at (suc n) (c ∷ s) = at n s

begins-at : (i : ℕ) (p s : List ℕ) → i < length p → begins p s ≡ true → at i s ≡ at i p
unfolding begins
begins-at i [] s h b = absurd (omega arith)
begins-at i (c ∷ p) [] h b = absurd cc
begins-at zero (c ∷ p) (d ∷ s) h b = ground arith
begins-at (suc i) (c ∷ p) (d ∷ s) h b = begins-at i p s (omega arith) (ground arith)

-- What tells the addresses of the sidebar apart: the two letters after `/dashboard/`.
abbrev pub letters : List ℕ → ℕ
letters s = at 11 s * 1000 + at 12 s

abbrev pub path_of : Match → String
path_of (exactly path) = path
path_of (below path) = path

abbrev pub tag : NavItem → ℕ
tag i = letters (codes (path_of i.when))

abbrev pub IsLong : Match → Type 0
IsLong (exactly path) = Unit
IsLong (below path) = 12 < length (codes path)

matches-letters :
    (m : Match) (p : String)
    → IsLong m
    → matches m p ≡ true
    → letters (codes p) ≡ letters (codes (path_of m))
matches-letters (exactly path) p h k = ap (λ q. letters (codes q)) ((eq_iff p path).0 k)
matches-letters (below path) p h k =
    let a = begins-at 11 (codes path) (codes p) (omega arith) k in
    let b = begins-at 12 (codes path) (codes p) h k in rw (a, b) refl

active_items-others :
    (p : String) (is : List NavItem)
    → All (λ i. IsLong i.when × (tag i ≢ letters (codes p))) is
    → active_items p is ≡ []
unfolding active_items
active_items-others p [] h = refl
active_items-others p (i ∷ is) ((l, n), h) = elim (Bool-cases (matches i.when p)) [
  | inl k ↦ absurd (n (sym (matches-letters i.when p l k)))
  | inr k ↦ rw k (active_items-others p is h)
]

-- The letters of each address differ from those of all the next ones.
abbrev pub IsApart : List NavItem → Type 0
IsApart [] = Unit
IsApart (i ∷ is) = All (λ j. tag j ≢ tag i) is × IsApart is

All-IsLong-apart :
    (t : ℕ) (k : ℕ) (is : List NavItem)
    → k ≡ t
    → All (λ i. IsLong i.when) is
    → All (λ j. tag j ≢ t) is
    → All (λ i. IsLong i.when × (tag i ≢ k)) is
All-IsLong-apart t k [] e ls h = tt
All-IsLong-apart t k (i ∷ is) e (l, ls) (n, h) =
    ((l, (λ f. n (f ∙ e))), All-IsLong-apart t k is e ls h)

active_items-few :
    (p : String) (is : List NavItem)
    → All (λ i. IsLong i.when) is
    → IsApart is
    → length (active_items p is) ≤ 1
unfolding active_items
active_items-few p [] ls h = omega arith
active_items-few p (i ∷ is) (l, ls) (a, h) = elim (Bool-cases (matches i.when p)) [
  | inl k ↦
      let e = matches-letters i.when p l k in
      rw (k, active_items-others p is (All-IsLong-apart (tag i) _ is e ls a)) (omega arith)
  | inr k ↦ rw k (active_items-few p is ls h)
]

sidebar_items-IsLong : All (λ i. IsLong i.when) sidebar_items
sidebar_items-IsLong = omega arith

sidebar_items-IsApart : IsApart sidebar_items
sidebar_items-IsApart = omega arith

-- Wherever the browser is, the sidebar shows at most one of its items as active.
pub sidebar_items-active : (p : String) → length (active_items p sidebar_items) ≤ 1
sidebar_items-active p = active_items-few p sidebar_items sidebar_items-IsLong sidebar_items-IsApart
