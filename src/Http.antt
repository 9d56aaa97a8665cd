-- ===== src/Http.antt =====
-- HTTP as the client code sees it: requests, responses, form data, and the world that a call of
-- `fetch` changes. The network is a parameter: what `fetch` answers may depend on every request
-- that was sent before.
pub mod Query
pub mod Laws
use motionmesh.Base.{
  ℕ, ◌+◌, ◌*◌, ◌/◌, Bool, true, false, ◌&&◌, ◌||◌, Option, none, some, List, [], ◌∷◌, ◌++◌, String,
  leb, ltb, ◌==◌, if◌then◌else◌, length, lookup, is_empty,
}
use motionmesh.Base.Ints.{pos}
use motionmesh.Js.Number.{Number, whole, nan, nat}
use motionmesh.Js.Value.{Value, to_json}
use motionmesh.Js.Exception.{Exception, Result, ok, thrown, read}

pub record File : Type 0 where
  pub name : String
  pub content_type : String
  pub bytes : List ℕ

pub data FormValue : Type 0 where
  text : String → FormValue
  file : File → FormValue

abbrev pub FormData : Type 0
FormData = List (String × FormValue)

pub data Body : Type 0 where
  empty : Body
  json : Value → Body
  form : FormData → Body
  binary : List ℕ → Body

abbrev pub Headers : Type 0
Headers = List (String × String)

pub record HttpRequest : Type 0 where
  pub method : String
  pub url : String
  pub headers : Headers
  pub body : Body

-- `json` and `text` are what reading the body gives, or the exception of reading it. Header names
-- are in lower case.
pub record HttpResponse : Type 0 where
  pub status : ℕ
  pub status_text : String
  pub headers : Headers
  pub json : Result Value
  pub text : Result String

-- `response.ok`
abbrev pub is_ok : HttpResponse → Bool
is_ok r = leb 200 r.status && ltb r.status 300

-- What a progress callback is given.
pub record Progress : Type 0 where
  pub loaded : Number
  pub total : Number
  pub percent : Number

-- What the rest of the world has seen of a call, oldest first.
pub record World : Type 0 where
  pub sent : List HttpRequest
  pub progress : List Progress

pub record Host : Type 0 where
  pub fetch : List HttpRequest → HttpRequest → Result HttpResponse
  pub env : String → Option String

abbrev pub Net {ℓ} : Type ℓ → Type ℓ
Net A = World → Result A × World

abbrev pub bind_result {ℓ κ} :
    {A : Type ℓ} {B : Type κ} → Result A × World → (A → Net B) → Result B × World
bind_result (ok a, w) f = f a w
bind_result (thrown e, w) f = (thrown e, w)

infixl 5 ◌>>=◌ ◌>>◌
abbrev pub ◌>>=◌ {ℓ κ} : {A : Type ℓ} {B : Type κ} → Net A → (A → Net B) → Net B
◌>>=◌ m f w = bind_result (m w) f

abbrev pub ◌>>◌ {ℓ} : {B : Type ℓ} → Net (Unit {0}) → Net B → Net B
m >> k = m >>= λ _. k

module _ {ℓ} {A : Type ℓ} where
  abbrev pub pure : A → Net A
  pure a w = (ok a, w)

  abbrev pub raise : Exception → Net A
  raise e w = (thrown e, w)

  abbrev pub from_result : Result A → Net A
  from_result r w = (r, w)

  abbrev pub catch_result : Result A × World → (Exception → Net A) → Result A × World
  catch_result (ok a, w) f = (ok a, w)
  catch_result (thrown e, w) f = f e w

  -- `try { m } catch (e) { f(e) }`: what was sent stays sent.
  abbrev pub catch : Net A → (Exception → Net A) → Net A
  catch m f w = catch_result (m w) f

-- A step for each case of a value that may be missing.
abbrev pub per_option {ℓ κ} : {A : Type ℓ} {B : Type κ} → Option A → Net B → (A → Net B) → Net B
per_option none m f = m
per_option (some a) m f = f a

unfoldable pub send : Host → HttpRequest → Net HttpResponse
send h r w = (h.fetch w.sent r, record w { sent = w.sent ++ r ∷ [] })

-- A call of the caller's progress callback, which is recorded whether or not there is one.
unfoldable pub report : Progress → Net (Unit {0})
report p w = (ok tt, record w { progress = w.progress ++ p ∷ [] })

abbrev pub read_json : HttpResponse → Net Value
read_json r = from_result r.json

abbrev pub read_text : HttpResponse → Net String
read_text r = from_result r.text

abbrev pub prop : String → Value → Net Value
prop k v = from_result (read k v)

-- A request that a handler is given.
pub record IncomingRequest : Type 0 where
  pub url : String
  pub headers : Headers
  pub json : Result Value
  pub form : Result FormData

pub record Reply : Type 0 where
  pub status : ℕ
  pub body : Value

-- `Response.json(v, { status })`
abbrev pub reply : ℕ → Value → Reply
reply status v = record { status = status; body = to_json v }

-- `process.env.NAME || other`
abbrev pub env_or : Host → String → String → String
env_or h name other = elim (h.env name) [ none ↦ other | some s ↦ if is_empty s then other else s ]

-- `headers.get(name) || ""` and `headers.get(name) ?? ""`, which agree.
abbrev pub header_or_empty : String → Headers → String
header_or_empty name hs = elim (lookup name hs) [ none ↦ "" | some s ↦ s ]
