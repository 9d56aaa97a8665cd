-- ===== src/Dashboard/Billing.antt =====
-- client/dashboard/src/app/dashboard: the handlers of the pages for billing and
-- usage, and components/landing/PricingSection.tsx, its buttons. A balance is
-- kept in hundredths, as the API gives it and before the division by 100 that the page shows. What
-- the page reads an amount as (`parseFloat`), with its tests, `Math.round(amount * 100)` and
-- `amount.toFixed(2)`, is floating point of the language, and is given.
pub mod Screens
use motionmesh.Base.{
  ℕ, Bool, true, false, not, ◌&&◌, ◌||◌, Option, none, some, String, List, [], ◌∷◌, ◌++◌,
  if◌then◌else◌, ◌==◌, ◌⧺◌, str_eq,
}
use motionmesh.Js.Number.{Number, nat}
use motionmesh.Js.Value.{
  Value, undefined, null, num, str, arr, stop, object, get, or_nullish, is_truthy,
}
use motionmesh.Js.Exception.{Result, ok, thrown}
use motionmesh.Http.Query.{encode_uri_component}
use motionmesh.Dashboard.Pages.{Outcome, is_failure}

-- An amount that was typed: whether `amount && amount > 0` holds, its hundredths, and its text.
pub record Amount : Type 0 where
  pub is_positive : Bool
  pub cents : ℕ
  pub fixed : String

-- `asked` are the addresses that were read, `posted` the requests with a body.
pub record Page : Type 0 where
  pub is_top_up_open : Bool
  pub balance : Value
  pub subscription : Value
  pub invoices : Value
  pub toasts : List String
  pub place : Value
  pub asked : List String
  pub posted : List (String × Value)

abbrev pub tell : String → Page → Page
tell title s = record s { toasts = s.toasts ++ title ∷ [] }

abbrev pub ask : String → Page → Page
ask path s = record s { asked = s.asked ++ path ∷ [] }

abbrev pub post : String → Value → Page → Page
post path body s = record s { posted = s.posted ++ (path, body) ∷ [] }

abbrev pub is_defined : Value → Bool
is_defined undefined = false
is_defined _ = true

-- `if (data?.balance !== undefined) setBalance(data.balance / 100)`
abbrev pub take_balance : Value → Page → Page
take_balance data_ s =
    if is_defined (get "balance" data_) then record s { balance = get "balance" data_ } else s

abbrev pub is_denied : Outcome → Bool
is_denied o = o.status == 401 || o.status == 403

-- The first half of `loadData`, after its call.
unfoldable pub take_subscription : Outcome → Page → Page
take_subscription o s =
    if is_failure o
    then (if is_denied o
        then tell "Unauthorized to view billing. Please log in." s
        else if o.status == 429
        then tell "Rate limited. Try again later." s
        else s)
    else if is_truthy o.data_
    then take_balance o.data_ (record s { subscription = o.data_ })
    else s

-- The second half.
unfoldable pub take_invoices : Outcome → Page → Page
take_invoices o s =
    if is_failure o
    then (if is_denied o
        then s
        else if o.status == 429
        then tell "Rate limited loading invoices." s
        else s)
    else if is_truthy o.data_
    then record s { invoices = o.data_ }
    else s

abbrev pub network_error : Page → Page
network_error s = tell "Network error. Failed to load billing data." s

abbrev pub load_invoices : Result Outcome → Page → Page
load_invoices (thrown e) s = network_error (ask "/v1/billing/invoices" s)
load_invoices (ok o) s = take_invoices o (ask "/v1/billing/invoices" s)

-- `loadData`; the second call is made unless the first one throws.
unfoldable pub load_data : Result Outcome → Result Outcome → Page → Page
load_data (thrown e) second s = network_error (ask "/v1/billing/subscription" s)
load_data (ok o) second s =
    load_invoices second (take_subscription o (ask "/v1/billing/subscription" s))

abbrev pub funds_body : Amount → Value
funds_body amount = object (("amount", num (nat amount.cents)) ∷ [])

abbrev pub added : Amount → String
added amount = "Successfully added $" ⧺ (amount.fixed ⧺ " to your balance.")

abbrev pub take_funds : Amount → Result Outcome → Page → Page
take_funds amount (thrown e) s = tell "An error occurred while processing payment." s
take_funds amount (ok o) s =
    if is_failure o
    then tell "Failed to add funds." s
    else tell (added amount) (record (take_balance o.data_ s) { is_top_up_open = false })

-- `handleTopUp`
unfoldable pub handle_top_up : Amount → Result Outcome → Page → Page
handle_top_up amount outcome s =
    if amount.is_positive
    then take_funds amount outcome
        (post "/v1/billing/funds" (funds_body amount) (tell "Processing payment..." s))
    else s

abbrev pub take_portal : Result Outcome → Page → Page
take_portal (thrown e) s = tell "An error occurred." s
take_portal (ok o) s =
    if is_failure o
    then tell "Failed to open billing portal." s
    else if is_truthy (get "url" o.data_)
    then record s { place = get "url" o.data_ }
    else s

-- `handlePortalRedirect`, from the present address.
unfoldable pub handle_portal_redirect : String → Result Outcome → Page → Page
handle_portal_redirect here outcome s = take_portal outcome (
    post "/v1/billing/portal" (object (("return_url", str here) ∷ []))
      (tell "Redirecting to billing portal..." s))

-- The page as it is first shown.
abbrev pub initial : Page
initial = record {
  is_top_up_open = false;
  balance = num (nat 0);
  subscription = null;
  invoices = arr stop;
  toasts = [];
  place = undefined;
  asked = [];
  posted = [];
}

-- A figure of the page of usage, which has a default.
abbrev pub figure : String → ℕ → Value → Value
figure name other subscription = or_nullish (get name subscription) (num (nat other))

-- `billing` of the page of usage: the names and the figures.
unfoldable pub usage_figures : Value → List (String × Value)
usage_figures subscription =
    ("prepaidBalance", figure "prepaidBalance" 0 subscription)
    ∷ ("storageUsedBytes", figure "storageUsedBytes" 0 subscription)
    ∷ ("egressUsedBytes", figure "egressUsedBytes" 0 subscription)
    ∷ ("transcodeMinutesUsed", figure "transcodeMinutesUsed" 0 subscription)
    ∷ ("transcodeMinutesLimit", figure "transcodeMinutesLimit" 5000 subscription)
    ∷ []

-- The section of prices: what its sign-in service knows, and what a button may do.
pub record Visitor : Type 0 where
  pub is_loaded : Bool
  pub is_signed_in : Bool

pub record Tier : Type 0 where
  pub name : String
  pub price_id : Option String

pub record Pricing : Type 0 where
  pub loading_tier : Option String
  pub place : Value
  pub toasts : List String
  pub posted : List (String × Value)

abbrev pub go_to : Value → Pricing → Pricing
go_to place s = record s { place = place }

abbrev pub warn : String → Pricing → Pricing
warn title s = record s { toasts = s.toasts ++ title ∷ [] }

-- The `try` around the call, after it.
abbrev pub take_checkout : Result Outcome → Pricing → Pricing
take_checkout (thrown e) s = warn "An error occurred. Please try again." s
take_checkout (ok o) s =
    if is_failure o
    then warn "Failed to start checkout process." s
    else if is_truthy (get "url" o.data_)
    then go_to (get "url" o.data_) s
    else s

abbrev pub checkout_body : String → String → Value
checkout_body origin price_id =
    object (("price_id", str price_id) ∷ ("return_url", str (origin ⧺ "/dashboard/billing")) ∷ [])

abbrev pub check_out : String → Tier → Option String → Result Outcome → Pricing → Pricing
check_out origin tier none outcome s = go_to (str "/dashboard") s
check_out origin tier (some price_id) outcome s =
    record (take_checkout outcome (record s {
      loading_tier = some tier.name;
      posted = s.posted ++ ("/v1/billing/checkout", checkout_body origin price_id) ∷ [];
    })) { loading_tier = none }

-- The click on a tier's button.
unfoldable pub choose_tier : String → Visitor → Tier → Result Outcome → Pricing → Pricing
choose_tier origin v tier outcome s =
    if str_eq tier.name "Scale"
    then go_to (str "mailto:sales@motionmesh.co.in") s
    else if not v.is_loaded
    then s
    else if not v.is_signed_in
    then go_to (str ("/signup?redirect_url=" ⧺ encode_uri_component "/dashboard/billing")) s
    else check_out origin tier tier.price_id outcome s
