-- ===== src/Web/Services/Accounts.antt =====
-- apps/web/src/services/authApi.ts and dashboardApi.ts.
use Prim.Native.String
use agentunited.Prelude.{ℕ, String, Option, none, some, if◌then◌else◌}
use agentunited.Prelude.Js.{obj, str, field, no_fields}
use agentunited.Web.Chat.{Request, get_method, post_method, request_of, HttpResponse}
use agentunited.Web.Services.Requests.{
  Outcome, returns, throws, fails, or_given, error_of, read_json,
}

pub forgot_password_request : String → Request
unfolding request_of
forgot_password_request email =
    request_of post_method "/api/v1/auth/forgot-password"
      (some (obj (field "email" (str email) no_fields)))

pub forgot_password {ℓ} : {A : Type ℓ} → Option (HttpResponse A) → Outcome (Unit {0})
forgot_password none = fails
forgot_password (some r) = if r.ok then returns tt else throws "Request failed"

pub reset_password_request : String → String → Request
unfolding request_of
reset_password_request token new_password =
    request_of post_method "/api/v1/auth/reset-password"
      (some (obj (field "token" (str token) (field "new_password" (str new_password) no_fields))))

pub reset_password {ℓ} : {A : Type ℓ} → Option (HttpResponse A) → Outcome (Unit {0})
reset_password none = fails
reset_password (some r) =
    if r.ok then returns tt else throws (or_given (error_of r.error_body) "Reset failed")

-- `request` of dashboardApi.ts, with the text of the response.
pub dashboard_request {ℓ} :
    {A : Type ℓ} → (ℕ → String) → Option (HttpResponse A × String) → Outcome (Option A)
dashboard_request show none = fails
dashboard_request show (some (r, text)) =
    if r.ok
    then read_json r.body
    else throws
        (String.◌++◌ "Request failed: " (String.◌++◌ (show r.status) (String.◌++◌ " " text)))

pub data TunnelPlan : Type 0 where
  tunnel_lite tunnel_pro : TunnelPlan

abbrev plan_text : TunnelPlan → String
plan_text tunnel_lite = "tunnel_lite"
plan_text tunnel_pro = "tunnel_pro"

pub create_tunnel_checkout_request : TunnelPlan → Option String → Request
unfolding request_of
create_tunnel_checkout_request plan subdomain =
    let product = field "product" (str "tunnel") no_fields in
    request_of post_method "/api/v1/billing/checkout" (
      some (
        obj (
          field "plan" (str (plan_text plan))
            (elim subdomain [ none ↦ product | some s ↦ field "subdomain" (str s) product ]))))

pub create_billing_portal_session_request : Request
unfolding request_of
create_billing_portal_session_request =
    request_of post_method "/api/v1/billing/portal"
      (some (obj (field "return_path" (str "/dashboard/tunnel") no_fields)))

pub check_subdomain_availability_request : (String → String) → String → Request
unfolding request_of
check_subdomain_availability_request encode raw_name =
    request_of get_method (String.◌++◌ "/api/v1/tunnel/subdomain/check?name=" (encode raw_name))
      none

pub save_subdomain_selection_request : String → Request
unfolding request_of
save_subdomain_selection_request name =
    request_of post_method "/api/v1/tunnel/subdomain"
      (some (obj (field "subdomain" (str name) no_fields)))

-- getPairingStatus and refreshPairingCode send the same request.
pub get_pairing_status_request : Request
unfolding request_of
get_pairing_status_request = request_of get_method "/api/v1/pairing/code" none
