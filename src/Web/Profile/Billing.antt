-- ===== src/Web/Profile/Billing.antt =====
-- apps/web/src/pages/UserSettingsPage.tsx: the tab of the plan. `origin` is window.location.origin.
use Prim.Native.String.{◌++◌ as join}
use agentunited.Prelude.{
  ℕ, String, Bool, true, false, not, ◌||◌, Option, none, some, is_some, leb, str_eq, if◌then◌else◌,
}
use agentunited.Web.Forms.{Result, failed, answered, message_of}

pub data Plan : Type 0 where
  free pro team : Plan

pub record BillingStatus : Type 0 where
  pub plan : Plan
  pub entity_count : ℕ
  pub entity_limit : ℕ

pub data Redirect : Type 0 where
  upgraded canceled : Redirect

pub record Billing : Type 0 where
  pub active : Bool
  pub billing_status : Option BillingStatus
  pub billing_loading : Bool
  pub billing_error : Option String
  pub checkout_loading_plan : Option Plan
  pub portal_loading : Bool
  pub billing_action_error : Option String
  pub billing_redirect_status : Option Redirect

abbrev pub is_true : Option String → Bool
is_true none = false
is_true (some value) = str_eq value "true"

-- The parameters of the address.
abbrev pub redirect_of : Option String → Option String → Option Redirect
redirect_of was_upgraded was_canceled =
    if is_true was_upgraded
    then some upgraded
    else if is_true was_canceled
    then some canceled
    else none

-- loadBilling up to its await and behind it.
unfoldable pub load_billing : Billing → Billing
load_billing b = record b { billing_loading = true; billing_error = none }

unfoldable pub billing_loaded : Result BillingStatus → Billing → Billing
billing_loaded (failed message) b = record b {
  billing_error = some "Unable to load billing info. Try refreshing.";
  billing_loading = false;
}
billing_loaded (answered status) b = record b {
  billing_status = some status;
  billing_loading = false;
}

-- The effect on the tab and the status: whether the status is asked for.
unfoldable pub tab_changed : Bool → Billing → Billing × Bool
unfolding load_billing
tab_changed is_billing b =
    let next = record b { active = is_billing } in
    if not is_billing || is_some b.billing_status then (next, false) else (load_billing next, true)

-- STRIPE_PRICE_IDS
abbrev pub price_id : Plan → String
price_id pro = "price_1T8leTJep8wNHLzTS1wP6gOF"
price_id team = "price_1T8leoJep8wNHLzTjB8gVZSj"
price_id free = ""

abbrev pub plan_text : Plan → String
plan_text free = "free"
plan_text pro = "pro"
plan_text team = "team"

-- What createCheckoutSession is called with.
pub record Checkout : Type 0 where
  pub plan : Plan
  pub price : String
  pub success_url : String
  pub cancel_url : String

-- checkout up to its await, with its buttons.
unfoldable pub start_checkout : String → Plan → Billing → Billing × Option Checkout
start_checkout origin plan b = if is_some b.checkout_loading_plan then (b, none) else (
  record b { billing_action_error = none; checkout_loading_plan = some plan },
  some record {
    plan = plan;
    price = price_id plan;
    success_url = join origin (join "/welcome?plan=" (plan_text plan));
    cancel_url = join origin "/settings/billing?canceled=true";
  },
)

-- checkout behind its await, and the address that is opened.
unfoldable pub end_checkout : Result String → Billing → Billing × Option String
end_checkout (failed message) b = (
  record b {
    billing_action_error = some (message_of "Something went wrong. Try again." message);
    checkout_loading_plan = none;
  },
  none,
)
end_checkout (answered url) b = (record b { checkout_loading_plan = none }, some url)

-- openPortal up to its await, with its button: whether the portal is asked for.
unfoldable pub start_portal : Billing → Billing × Bool
start_portal b =
    if b.portal_loading
    then (b, false)
    else (record b { billing_action_error = none; portal_loading = true }, true)

unfoldable pub end_portal : Result String → Billing → Billing × Option String
end_portal (failed message) b = (
  record b {
    billing_action_error = some (message_of "Failed to open billing portal." message);
    portal_loading = false;
  },
  none,
)
end_portal (answered url) b =
    if str_eq url ""
    then (
      record b {
        billing_action_error = some "Billing portal unavailable. Try again.";
        portal_loading = false;
      },
      none,
    )
    else (record b { portal_loading = false }, some url)

-- Eight seconds behind a redirect.
unfoldable pub redirect_timer : Billing → Billing
redirect_timer b = record b { billing_redirect_status = none }

-- showUpgradePrompt
abbrev pub is_full : BillingStatus → Bool
is_full s = leb s.entity_limit s.entity_count

abbrev pub prompts : BillingStatus → Bool
prompts s = elim s.plan [ free ↦ is_full s | pro ↦ is_full s | team ↦ false ]

unfoldable pub show_upgrade_prompt : Option BillingStatus → Bool
show_upgrade_prompt none = false
show_upgrade_prompt (some s) = prompts s
