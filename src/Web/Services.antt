-- ===== src/Web/Services.antt =====
-- The services of the web application that make single requests: userApi.ts, integrationApi.ts,
-- billingApi.ts, agentFoundationApi.ts, dashboardApi.ts, authApi.ts and inviteApi.ts of
-- apps/web/src/services. A response's body is read at the type that the source gives it; the answer
-- of a request is an argument, and the requests that are sent are values of their own. `show` is the
-- decimal text of a number and `encode` encodeURIComponent.
pub mod Requests
pub mod Invites
pub mod Accounts
pub mod Failures
mod Tests
pub use Requests.{Outcome, returns, throws, fails, Client}
unfoldable pub use Requests.{
  request, user_client, integration_client, billing_client, agent_client, or_text, or_given,
  message_of, failed_text, error_of, ◌>>=◌,
}
use Prim.Native.String
use agentunited.Prelude.{
  ℕ, String, Bool, true, false, not, Option, none, some, List, [], ◌∷◌, ◌++◌, str_eq, if◌then◌else◌,
  ◌==◌,
}
use agentunited.Prelude.Js.{
  Value, obj, str, num, bool, arr, null, undefined, Fields, no_fields, field, Items, empty_items,
  item, field_of,
}
use agentunited.Web.Chat.{
  Request, Method, get_method, patch_method, put_method, post_method, delete_method, request_of,
  HttpResponse, Body, ErrorBody, Listing, listed,
}

-- userApi.ts. A profile is what the server sent.
abbrev pub has_field : String → Fields → Bool
has_field k no_fields = false
has_field k (field j v fs) = if str_eq j k then true else has_field k fs

-- v ?? {}
abbrev pub or_object : Value → Value
or_object null = obj no_fields
or_object undefined = obj no_fields
or_object v = v

unfoldable pub normalize_me_response : Value → Value
normalize_me_response (obj fs) =
    if has_field "user" fs then or_object (field_of "user" fs) else obj fs
normalize_me_response v = or_object v

abbrev given : Option Value → Value
given none = undefined
given (some v) = v

pub get_me : (ℕ → String) → Option (HttpResponse Value) → Outcome Value
unfolding request user_client normalize_me_response
get_me show response = do
  res ← request (user_client show) response
  returns (normalize_me_response (given res))

-- JSON.stringify leaves a missing key out.
abbrev if_given : String → Option String → Fields → Fields
if_given k none fs = fs
if_given k (some t) fs = field k (str t) fs

pub update_me_request : Option String → Option String → Request
unfolding request_of
update_me_request display_name avatar_url =
    request_of put_method "/api/v1/me" (
      some
        (obj (if_given "display_name" display_name (if_given "avatar_url" avatar_url no_fields))))

pub update_password_request : String → String → Request
unfolding request_of
update_password_request current new =
    request_of post_method "/api/v1/me/password" (
      some
        (obj (field "current_password" (str current) (field "new_password" (str new) no_fields))))

-- integrationApi.ts.
pub data Platform : Type 0 where
  openclaw langgraph autogen custom : Platform

abbrev platform_text : Platform → String
platform_text openclaw = "openclaw"
platform_text langgraph = "langgraph"
platform_text autogen = "autogen"
platform_text custom = "custom"

pub record IntegrationRecord : Type 0 where
  pub id : String
  pub name : String
  pub platform : Platform
  pub webhook_url : String
  pub events : List String
  pub active : Bool
  pub last_event_at : Option String
  pub created_at : Option String

abbrev present {ℓ} : {A : Type ℓ} → Option A → Outcome A
present none = fails
present (some a) = returns a

pub list_integrations :
    (ℕ → String)
    → Option (HttpResponse (Listing IntegrationRecord))
    → Outcome (List IntegrationRecord)
unfolding request integration_client
list_integrations show response = do
  res ← request (integration_client show) response
  l ← present res
  returns (listed l)

abbrev text_items : List String → Items
text_items [] = empty_items
text_items (t ∷ ts) = item (str t) (text_items ts)

pub create_integration_request : String → Platform → String → List String → Request
unfolding request_of
create_integration_request name platform webhook events =
    request_of post_method "/api/v1/integrations" (
      some (
        obj (
          field "name" (str name) (
            field "platform" (str (platform_text platform)) (
              field "webhook_url" (str webhook)
                (field "events" (arr (text_items events)) no_fields))))))

pub remove_integration_request : String → Request
unfolding request_of
remove_integration_request id =
    request_of delete_method (String.◌++◌ "/api/v1/integrations/" id) none

-- billingApi.ts.
pub get_status_request : Request
unfolding request_of
get_status_request = request_of get_method "/api/v1/billing/status" none

-- The body is an object of the caller's.
pub create_checkout_session_request : Fields → Request
unfolding request_of
create_checkout_session_request body =
    request_of post_method "/api/v1/billing/checkout" (some (obj body))

pub record Checkout : Type 0 where
  pub checkout_url : Option String
  pub session_url : Option String

pub create_checkout_session : (ℕ → String) → Option (HttpResponse Checkout) → Outcome String
unfolding request billing_client
create_checkout_session show response = do
  res ← request (billing_client show) response
  c ← present res
  returns (or_given c.session_url (or_given c.checkout_url ""))

pub record Portal : Type 0 where
  pub portal_url : Option String
  pub url : Option String

abbrev portal_path : String
portal_path = "/api/v1/billing/portal"

abbrev pub portal_of : Outcome (Option Portal) → Outcome String
portal_of res = do
  p ← res
  portal ← present p
  returns (or_given portal.portal_url (or_given portal.url ""))

-- The first request, and where it comes to no address, the second one.
pub create_portal_session :
    (ℕ → String)
    → Option (HttpResponse Portal)
    → Option (HttpResponse Portal)
    → Outcome String × List Request
unfolding request billing_client request_of
create_portal_session show first second =
    let get = request_of get_method portal_path none in
    let post = request_of post_method portal_path (some (obj no_fields)) in
    elim (portal_of (request (billing_client show) first)) [
      | returns url ↦ (returns url, get ∷ [])
      | _ ↦ (portal_of (request (billing_client show) second), get ∷ post ∷ [])
    ]

pub check_subdomain_request : String → Request
unfolding request_of
check_subdomain_request subdomain =
    request_of post_method "/api/v1/tunnel/subdomain/check"
      (some (obj (field "subdomain" (str subdomain) no_fields)))

pub claim_subdomain_request : String → Request
unfolding request_of
claim_subdomain_request subdomain =
    request_of post_method "/api/v1/tunnel/subdomain/claim"
      (some (obj (field "subdomain" (str subdomain) no_fields)))

-- agentFoundationApi.ts.
infixr 66 ◌/◌
abbrev ◌/◌ : String → String → String
a / b = String.◌++◌ a (String.◌++◌ "/" b)

abbrev pub agent_path : String → String
agent_path agent = "/v1/agents" / agent

abbrev keys_path : String → String
keys_path agent = agent_path agent / "api-keys"

abbrev hooks_path : String → String
hooks_path agent = agent_path agent / "webhooks"

pub get_agent_request : String → Request
unfolding request_of
get_agent_request agent = request_of get_method (agent_path agent) none

-- The payload is an object of the caller's.
pub update_agent_request : String → Fields → Request
unfolding request_of
update_agent_request agent payload = request_of patch_method (agent_path agent) (some (obj payload))

pub get_api_keys_request : String → Request
unfolding request_of
get_api_keys_request agent = request_of get_method (keys_path agent) none

abbrev or_null : Option String → Value
or_null none = null
or_null (some t) = str t

pub create_api_key_request : String → String → List String → Option String → Request
unfolding request_of
create_api_key_request agent label scopes expires_at = request_of post_method (keys_path agent) (
    some (
      obj (
        field "label" (str label) (
          field "scopes" (arr (text_items scopes))
            (field "expires_at" (or_null expires_at) no_fields)))))

pub rotate_api_key_request : String → String → ℕ → Request
unfolding request_of
rotate_api_key_request agent key overlap_seconds =
    request_of post_method (keys_path agent / key / "rotate")
      (some (obj (field "overlap_seconds" (num overlap_seconds) no_fields)))

pub revoke_api_key_request : String → String → String → Request
unfolding request_of
revoke_api_key_request agent key reason =
    request_of post_method (keys_path agent / key / "revoke")
      (some (obj (field "reason" (str reason) no_fields)))

pub get_webhooks_request : String → Request
unfolding request_of
get_webhooks_request agent = request_of get_method (hooks_path agent) none

pub create_webhook_request : String → String → List String → ℕ → ℕ → Bool → Request
unfolding request_of
create_webhook_request agent url events timeout_seconds max_retries dlq_enabled =
    request_of post_method (hooks_path agent) (
      some (
        obj (
          field "url" (str url) (
            field "events" (arr (text_items events)) (
              field "timeout_seconds" (num timeout_seconds) (
                field "max_retries" (num max_retries)
                  (field "dlq_enabled" (bool dlq_enabled) no_fields)))))))

pub regenerate_webhook_secret_request : String → String → Request
unfolding request_of
regenerate_webhook_secret_request agent hook =
    request_of post_method (hooks_path agent / hook / "secret/regenerate") none

pub get_deliveries_request : (ℕ → String) → String → String → Option ℕ → Request
unfolding request_of
get_deliveries_request show agent hook limit =
    let count : ℕ = elim limit [ none ↦ 20 | some n ↦ n ] in
    request_of get_method (hooks_path agent / hook / String.◌++◌ "deliveries?limit=" (show count))
      none

pub retry_delivery_request : String → String → String → Request
unfolding request_of
retry_delivery_request agent hook event =
    request_of post_method (hooks_path agent / hook / "deliveries" / event / "retry") none

pub replay_dlq_request : String → String → String → Request
unfolding request_of
replay_dlq_request agent hook event =
    request_of post_method (hooks_path agent / hook / "deliveries" / event / "replay-dlq") none
