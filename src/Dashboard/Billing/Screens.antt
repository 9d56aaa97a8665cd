-- ===== src/Dashboard/Billing/Screens.antt =====
-- client/dashboard/src/app/dashboard: what the pages for usage and billing show. Dates are left to the
-- browser; `toFixed(2)` and `formatBytes` are given.
use motionmesh.Base.{
  ℕ, ◌*◌, Bool, ◌&&◌, ◌||◌, Option, none, some, String, List, [], ◌∷◌, if◌then◌else◌, ◌⧺◌, show_nat,
  length, leb, ltb,
}
use motionmesh.Js.Number.{Number, is_positive}
use motionmesh.Js.Value.{Value, num, str, get, or, or_nullish}
use motionmesh.Dashboard.Activity.{is_text}
use motionmesh.Dashboard.Figures.{Level, meter_level}
use motionmesh.Dashboard.Pages.{Outcome}
use motionmesh.Dashboard.Pages.Lists.{size_of}
use motionmesh.Dashboard.Billing.{figure}

-- A meter, with its label, its use, its limit and whether it warns.
pub record Meter : Type 0 where
  pub label : String
  pub used : ℕ
  pub limit : ℕ
  pub level : Level

abbrev pub meter : String → ℕ → ℕ → Meter
meter label used limit = record {
  label = label;
  used = used;
  limit = limit;
  level = meter_level used limit;
}

abbrev pub tebibyte : ℕ
tebibyte = 1099511627776

-- `event.cost > 0 ? $… : Included`
abbrev pub cost_cell : (Number → String) → Value → String
cost_cell fixed (num n) = if is_positive n then "$" ⧺ fixed n else "Included"
cost_cell fixed _ = "Included"

pub record UsageLine : Type 0 where
  pub event : Value
  pub resource : Value
  pub quantity : Value
  pub cost : String

unfoldable pub usage_lines : (Number → String) → List Value → List UsageLine
usage_lines fixed [] = []
usage_lines fixed (e ∷ es) =
    (record {
      event = get "type" e;
      resource = get "resource" e;
      quantity = get "quantity" e;
      cost = cost_cell fixed (get "cost" e);
    })
    ∷ usage_lines fixed es

abbrev pub headline : List Value → String
headline [] = "No events recorded this billing cycle."
headline (e ∷ es) =
    "Showing the last " ⧺ (show_nat (length (e ∷ es)) ⧺ " events this billing cycle.")

pub data UsageBody : Type 0 where
  loading_usage : UsageBody
  usage : List Meter → String → List UsageLine → UsageBody

-- The queries of the page: null or the empty list where the status is no success.
unfoldable pub load_usage : Value → Outcome → Value
load_usage other o =
    if leb 200 o.status && ltb o.status 300 then or_nullish o.data_ other else other

unfoldable pub meters_of : Value → List Meter
meters_of subscription =
    meter "Total Data Stored" (size_of (figure "storageUsedBytes" 0 subscription)) (5 * tebibyte)
    ∷ meter "Outbound Bandwidth" (size_of (figure "egressUsedBytes" 0 subscription)) (10 * tebibyte)
    ∷ meter "Compute Minutes" (size_of (figure "transcodeMinutesUsed" 0 subscription))
        (size_of (figure "transcodeMinutesLimit" 5000 subscription))
    ∷ []

unfoldable pub usage_body : (Number → String) → Bool → Bool → Value → List Value → UsageBody
usage_body fixed is_sub_loading is_inv_loading subscription events =
    if is_sub_loading || is_inv_loading
    then loading_usage
    else usage (meters_of subscription) (headline events) (usage_lines fixed events)

-- The balance in the head of the page, once it is loaded.
abbrev pub fixed_value : (Number → String) → Value → String
fixed_value fixed (num n) = "$" ⧺ fixed n
fixed_value fixed _ = "$"

unfoldable pub balance_text : (Number → String) → Bool → Value → Option String
balance_text fixed is_sub_loading subscription =
    if is_sub_loading
    then none
    else some (fixed_value fixed (figure "prepaidBalance" 0 subscription))

-- The page of billing: the plan, and the lines of the invoices.
unfoldable pub plan_text : Value → Value
plan_text subscription = or (get "plan" subscription) (str "...")

pub record InvoiceLine : Type 0 where
  pub amount : String
  pub is_paid : Bool
  pub status : Value

unfoldable pub invoice_lines : (Number → String) → List Value → List InvoiceLine
invoice_lines fixed [] = []
invoice_lines fixed (i ∷ is) =
    (record {
      amount = fixed_value fixed (get "amount" i);
      is_paid = is_text "paid" (get "status" i);
      status = get "status" i;
    })
    ∷ invoice_lines fixed is
