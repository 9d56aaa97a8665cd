-- ===== src/Http/Laws.antt =====
-- Which requests a chain of calls sends: a postcondition of every call, however it ends, with a
-- rule for each way of chaining.
use motionmesh.Base.{
  ◌≡◌, refl, sym, ◌∙◌, Bool, true, false, List, [], ◌∷◌, ◌++◌, Option, none, some, if◌then◌else◌,
}
use motionmesh.Base.Lists.{All, All-append}
use motionmesh.Js.Exception.{Exception, Result, ok, thrown}
use motionmesh.Http.{
  HttpRequest, World, Host, Net, bind_result, catch_result, ◌>>=◌, catch, send, report, Progress,
  pure, raise, from_result, per_option,
}
use mathlib.Core.List.{append-nil, append_assoc}

-- What was sent after `w`: a list of requests that all satisfy `P`.
abbrev pub Grows : (HttpRequest → Type 0) → World → World → Type 0
Grows P w w' = (new : List HttpRequest) × (w'.sent ≡ w.sent ++ new) × All P new

module _ {P : HttpRequest → Type 0} where
  pub Grows-refl : (w : World) → Grows P w w
  Grows-refl w = ([], sym (append-nil _), tt)

  pub Grows-trans : (u v w : World) → Grows P u v → Grows P v w → Grows P u w
  Grows-trans u v w (xs, e, h) (ys, f, k) =
      (xs ++ ys, f ∙ rw e (append_assoc u.sent xs ys), All-append P xs ys h k)

-- Every request that `m` sends satisfies `P`, whether `m` returns or throws.
pub record Sends {ℓ} {A : Type ℓ} (P : HttpRequest → Type 0) (m : Net A) : Type ℓ where
  pub grows : (w : World) → Grows P w (m w).1

module _ {P : HttpRequest → Type 0} where
  pub Sends-pure {ℓ} : {A : Type ℓ} (a : A) → Sends P (pure a)
  Sends-pure a = record { grows = λ w. Grows-refl w }

  pub Sends-raise {ℓ} : {A : Type ℓ} (e : Exception) → Sends {A = A} P (raise e)
  Sends-raise e = record { grows = λ w. Grows-refl w }

  pub Sends-from_result {ℓ} : {A : Type ℓ} (r : Result A) → Sends P (from_result r)
  Sends-from_result r = record { grows = λ w. Grows-refl w }

  pub Sends-send : (h : Host) (r : HttpRequest) → P r → Sends P (send h r)
  unfolding send
  Sends-send h r p = record { grows = λ w. (r ∷ [], refl, (p, tt)) }

  pub Sends-report : (p : Progress) → Sends P (report p)
  unfolding report
  Sends-report p = record { grows = λ w. ([], sym (append-nil _), tt) }

  Grows-bind {ℓ κ} :
      {A : Type ℓ} {B : Type κ} (u : World) (m : Result A × World) (f : A → Net B)
      → Grows P u m.1
      → ((a : A) → Sends P (f a))
      → Grows P u (bind_result m f).1
  Grows-bind u (ok a, w) f g s = Grows-trans u w (f a w).1 g ((s a).grows w)
  Grows-bind u (thrown e, w) f g s = g

  pub Sends-bind {ℓ κ} :
      {A : Type ℓ} {B : Type κ} {m : Net A} {f : A → Net B}
      → Sends P m
      → ((a : A) → Sends P (f a))
      → Sends P (m >>= f)
  Sends-bind {m} {f} s t = record { grows = λ w. Grows-bind w (m w) f (s.grows w) t }

  -- A call at a world, with what is known where it returns.
  pub Grows-step {ℓ κ} :
      {A : Type ℓ} {B : Type κ} (u : World) (m : Result A × World) (f : A → Net B)
      → Grows P u m.1
      → ((a : A) (w : World) → m ≡ (ok a, w) → Grows P u w → Grows P u (f a w).1)
      → Grows P u (bind_result m f).1
  Grows-step u (ok a, w) f g s = s a w refl g
  Grows-step u (thrown e, w) f g s = g

  pub Grows-read {ℓ κ} :
      {A : Type ℓ} {B : Type κ} (u w : World) (r : Result A) (f : A → Net B)
      → Grows P u w
      → ((a : A) → r ≡ ok a → Grows P u (f a w).1)
      → Grows P u (bind_result (r, w) f).1
  Grows-read u w (ok a) f g s = s a refl
  Grows-read u w (thrown e) f g s = g

  -- The world that a call starts from may be one that others have led to.
  pub Grows-Sends {ℓ} :
      {A : Type ℓ} {m : Net A} (u w : World) → Grows P u w → Sends P m → Grows P u (m w).1
  Grows-Sends {m} u w g s = Grows-trans u w (m w).1 g (s.grows w)

  Grows-catch {ℓ} :
      {A : Type ℓ} (u : World) (m : Result A × World) (f : Exception → Net A)
      → Grows P u m.1
      → ((e : Exception) → Sends P (f e))
      → Grows P u (catch_result m f).1
  Grows-catch u (ok a, w) f g s = g
  Grows-catch u (thrown e, w) f g s = Grows-trans u w (f e w).1 g ((s e).grows w)

  pub Sends-catch {ℓ} :
      {A : Type ℓ} {m : Net A} {f : Exception → Net A}
      → Sends P m
      → ((e : Exception) → Sends P (f e))
      → Sends P (catch m f)
  Sends-catch {m} {f} s t = record { grows = λ w. Grows-catch w (m w) f (s.grows w) t }

  pub Sends-if {ℓ} :
      {A : Type ℓ} (b : Bool) {m n : Net A} → Sends P m → Sends P n → Sends P (if b then m else n)
  Sends-if true s t = s
  Sends-if false s t = t

  pub Sends-Option {ℓ κ} :
      {A : Type ℓ} {B : Type κ} (o : Option A) {m : Net B} {f : A → Net B}
      → Sends P m
      → ((a : A) → Sends P (f a))
      → Sends P (per_option o m f)
  Sends-Option none s t = s
  Sends-Option (some a) s t = t a

pub ruleset sends =
    (Sends-pure, Sends-raise, Sends-from_result, Sends-report, Sends-bind, Sends-if, Sends-Option)

-- A weaker postcondition.
pub All-mono :
    {P Q : HttpRequest → Type 0} (rs : List HttpRequest)
    → ((r : HttpRequest) → P r → Q r)
    → All P rs
    → All Q rs
All-mono [] f h = tt
All-mono (r ∷ rs) f (p, h) = (f r p, All-mono rs f h)

pub Sends-mono {ℓ} :
    {P Q : HttpRequest → Type 0} {A : Type ℓ} {m : Net A}
    → ((r : HttpRequest) → P r → Q r)
    → Sends P m
    → Sends Q m
Sends-mono {m} f s = record {
  grows = λ w. let (new, e, h) = s.grows w in (new, e, All-mono new f h);
}
