-- ===== src/Web/Tunnel.antt =====
-- apps/web/src/pages/TunnelDashboardPage.tsx: the name of a tunnel, its plan and its payment. `lower` is
-- toLowerCase and `trim` String.prototype.trim. The markup is left out.
mod Tests
use Prim.Native.String.{◌++◌ as join}
use agentunited.Prelude.{String, Bool, true, false, Option, none, some, str_eq, if◌then◌else◌}
use agentunited.Web.Forms.{Result, failed, answered, message_of}
use agentunited.Web.Services.Accounts.{TunnelPlan, tunnel_lite}
use agentunited.Web.ChannelForm.Slug.{slugify}

pub record Tunnel : Type 0 where
  pub selected_plan : TunnelPlan
  pub subdomain : String
  pub availability : String
  pub is_available : Option Bool
  pub is_checking : Bool
  pub is_saving : Bool
  pub is_checkout_loading : Bool
  pub error : Option String

abbrev pub make : Tunnel
make = record {
  selected_plan = tunnel_lite;
  subdomain = "";
  availability = "Pick a name to check availability.";
  is_available = none;
  is_checking = false;
  is_saving = false;
  is_checkout_loading = false;
  error = none;
}

-- What checkSubdomainAvailability answers.
pub record Availability : Type 0 where
  pub available : Bool
  pub reason : Option String

abbrev pub or_unavailable : Option String → String
or_unavailable none = "Unavailable"
or_unavailable (some reason) = reason

-- handleCheckAvailability behind its await.
unfoldable pub end_check : Result Availability → Tunnel → Tunnel
end_check (failed message) t = record t {
  is_available = none;
  availability = "Could not check availability right now.";
  error = some (message_of "Unknown error" message);
  is_checking = false;
}
end_check (answered a) t = record t {
  is_available = some a.available;
  availability = if a.available then "Available ✅" else or_unavailable a.reason;
  is_checking = false;
}

-- handleSaveSubdomain behind its await, with the name that was saved.
unfoldable pub end_save : String → Result (Unit {0}) → Tunnel → Tunnel
end_save name (failed message) t = record t {
  error = some (message_of "Failed to save subdomain." message);
  is_saving = false;
}
end_save name (answered done) t = record t {
  availability = join "Saved: " (join name ".tunnel.agentunited.ai");
  is_available = some true;
  is_saving = false;
}

-- handleCheckout behind its await: the address that is opened, while the page goes on loading.
unfoldable pub end_checkout : Result String → Tunnel → Tunnel × Option String
end_checkout (failed message) t = (
  record t {
    error = some (message_of "Failed to create checkout session." message);
    is_checkout_loading = false;
  },
  none,
)
end_checkout (answered url) t = (t, some url)

unfoldable pub start_billing : Tunnel → Tunnel
start_billing t = record t { error = none }

-- handleManageBilling behind its await.
unfoldable pub end_billing : Result String → Tunnel → Tunnel × Option String
end_billing (failed message) t =
    (record t { error = some (message_of "Failed to open Stripe billing portal." message) }, none)
end_billing (answered url) t = (t, some url)

module _ (lower trim : String → String) where
  unfoldable pub normalize_subdomain : String → String
  unfolding slugify
  normalize_subdomain input = slugify lower (trim input)

  unfoldable pub subdomain_url : Tunnel → String
  unfolding normalize_subdomain
  subdomain_url t =
      let name = normalize_subdomain t.subdomain in
      join (if str_eq name "" then "your-name" else name) ".tunnel.agentunited.ai"

  -- The handlers up to their awaits, with the name that goes out.
  unfoldable pub start_check : Tunnel → Tunnel × Option String
  unfolding normalize_subdomain
  start_check t =
      let name = normalize_subdomain t.subdomain in
      if str_eq name ""
      then (
        record t {
          availability = "Enter a valid subdomain (letters, numbers, and hyphens).";
          is_available = some false;
        },
        none,
      )
      else (record t { error = none; is_checking = true }, some name)

  unfoldable pub start_save : Tunnel → Tunnel × Option String
  unfolding normalize_subdomain
  start_save t =
      let name = normalize_subdomain t.subdomain in
      if str_eq name "" then (t, none) else (record t { error = none; is_saving = true }, some name)

  -- The plan, and the name if there is one.
  unfoldable pub start_checkout : Tunnel → Tunnel × TunnelPlan × Option String
  unfolding normalize_subdomain
  start_checkout t =
      let name = normalize_subdomain t.subdomain in
      (
        record t { error = none; is_checkout_loading = true },
        t.selected_plan,
        if str_eq name "" then none else some name,
      )
