-- ===== src/Web/Webhooks.antt =====
-- apps/web/src/components/agentFoundation/WebhooksTab.tsx: the endpoints of an agent, the deliveries of
-- the selected one and the form of a new one. `calls` are the calls of the service that have not ended,
-- the oldest first. A setter of React is applied at once; the effect on the selected endpoint runs
-- where it changes. `valid` is the schema of the form, which is checked by a library. Copying the
-- secret and the markup are left out.
pub mod Pressing
pub mod Deliveries
pub mod Ordered
pub mod Submitting
mod Tests
use Prim.Native.String.{◌++◌ as join}
use agentunited.Prelude.{
  ℕ, String, Bool, true, false, not, ◌&&◌, Option, none, some, List, [], ◌∷◌, ◌++◌, keep, any, find,
  str_eq, is_some, if◌then◌else◌,
}
use agentunited.Web.Forms.{Result, failed, answered, message_of}

pub record WebhookItem : Type 0 where
  pub id : String
  pub url : String
  pub events : List String
  pub status : String

pub record DeliveryItem : Type 0 where
  pub event_id : String
  pub event : String
  pub status : String
  pub attempt : ℕ

pub record Values : Type 0 where
  pub url : String
  pub timeout_seconds : ℕ
  pub max_retries : ℕ
  pub dlq_enabled : Bool
  pub events : List String

abbrev pub default_values : Values
default_values = record {
  url = "";
  timeout_seconds = 10;
  max_retries = 8;
  dlq_enabled = true;
  events = "message.created" ∷ [];
}

-- The calls. That of the endpoints has the endpoint that onCreateWebhook selects behind it.
pub data Call : Type 0 where
  get_webhooks : Option String → Call
  get_deliveries : String → Call
  create_webhook : Values → Call
  regenerate_webhook_secret : String → Call
  -- The endpoint and the event.
  retry_delivery replay_dlq : String → String → Call

-- The id and the secret of a new endpoint.
pub record Created : Type 0 where
  pub id : String
  pub secret : String

-- What the service answers to a call.
abbrev pub Answer : Call → Type 0
Answer (get_webhooks after) = Result (List WebhookItem)
Answer (get_deliveries id) = Result (List DeliveryItem)
Answer (create_webhook values) = Result Created
Answer (regenerate_webhook_secret id) = Result String
Answer (retry_delivery id event) = Result (Unit {0})
Answer (replay_dlq id event) = Result (Unit {0})

pub record Tab : Type 0 where
  pub webhooks : List WebhookItem
  pub selected_webhook_id : Option String
  pub deliveries : List DeliveryItem
  pub is_loading : Bool
  pub is_deliveries_loading : Bool
  pub is_create_open : Bool
  pub secret_modal : Option (String × String)
  pub error : Option String
  pub success : Option String
  pub is_submitting : Bool
  pub form : Values
  pub calls : List Call

abbrev pub make : Tab
make = record {
  webhooks = [];
  selected_webhook_id = none;
  deliveries = [];
  is_loading = true;
  is_deliveries_loading = false;
  is_create_open = false;
  secret_modal = none;
  error = none;
  success = none;
  is_submitting = false;
  form = default_values;
  calls = [];
}

-- loadWebhooks and loadDeliveries up to their awaits.
unfoldable pub load_webhooks : Option String → Tab → Tab
load_webhooks after t = record t {
  is_loading = true;
  error = none;
  calls = t.calls ++ get_webhooks after ∷ [];
}

unfoldable pub load_deliveries : String → Tab → Tab
load_deliveries id t = record t {
  is_deliveries_loading = true;
  error = none;
  calls = t.calls ++ get_deliveries id ∷ [];
}

abbrev pub is_same : Option String → Option String → Bool
is_same none none = true
is_same (some a) (some b) = str_eq a b
is_same _ _ = false

-- The effect on the selected endpoint.
unfoldable pub selection_changed : Option String → Tab → Tab
unfolding load_deliveries
selection_changed none t = record t { deliveries = [] }
selection_changed (some id) t =
    if str_eq id "" then record t { deliveries = [] } else load_deliveries id t

-- setSelectedWebhookId, with the effect.
unfoldable pub set_selected : Option String → Tab → Tab
unfolding selection_changed
set_selected id t =
    if is_same t.selected_webhook_id id
    then t
    else selection_changed id (record t { selected_webhook_id = id })

-- prev ?? items[0].id, or null.
abbrev pub selection_in : List WebhookItem → Option String → Option String
selection_in [] previous = none
selection_in (item ∷ items) none = some item.id
selection_in (item ∷ items) (some id) = some id

-- loadWebhooks behind its await.
unfoldable pub webhooks_loaded : Result (List WebhookItem) → Tab → Tab
unfolding set_selected
webhooks_loaded (failed message) t = record t {
  error = some (message_of "Failed to load webhooks" message);
  is_loading = false;
}
webhooks_loaded (answered items) t =
    let shown = record t { webhooks = items } in
    record (set_selected (selection_in items t.selected_webhook_id) shown) { is_loading = false }

-- onCreateWebhook behind loadWebhooks.
unfoldable pub created_loaded : Option String → Tab → Tab
unfolding set_selected
created_loaded none t = t
created_loaded (some id) t = record (set_selected (some id) t) { is_submitting = false }

-- loadDeliveries behind its await.
unfoldable pub deliveries_loaded : Result (List DeliveryItem) → Tab → Tab
deliveries_loaded (failed message) t = record t {
  error = some (message_of "Failed to load deliveries" message);
  deliveries = [];
  is_deliveries_loading = false;
}
deliveries_loaded (answered items) t = record t {
  deliveries = items;
  is_deliveries_loading = false;
}

-- onCreateWebhook behind its first await.
unfoldable pub webhook_created : Result Created → Tab → Tab
unfolding load_webhooks
webhook_created (failed message) t = record t {
  error = some (message_of "Failed to create webhook" message);
  is_submitting = false;
}
webhook_created (answered created) t = load_webhooks (some created.id) (record t {
  is_create_open = false;
  secret_modal = some ("Webhook Signing Secret", created.secret);
  success = some "Webhook endpoint created";
  form = default_values;
})

unfoldable pub secret_regenerated : Result String → Tab → Tab
secret_regenerated (failed message) t = record t {
  error = some (message_of "Failed to regenerate secret" message);
  is_submitting = false;
}
secret_regenerated (answered secret) t = record t {
  secret_modal = some ("Webhook Secret Regenerated", secret);
  success = some "Webhook secret regenerated";
  is_submitting = false;
}

-- onRetryDelivery and onReplayDlq behind their awaits, with the endpoint that they were called for.
unfoldable pub queued : String → String → String → Result (Unit {0}) → Tab → Tab
unfolding load_deliveries
queued note fallback id (failed message) t = record t { error = some (message_of fallback message) }
queued note fallback id (answered done) t = load_deliveries id (record t { success = some note })

-- What a call's answer does; the call is no longer under way.
unfoldable pub finish : (c : Call) → Answer c → Tab → Tab
unfolding webhooks_loaded created_loaded deliveries_loaded webhook_created secret_regenerated queued
finish (get_webhooks after) r t = created_loaded after (webhooks_loaded r t)
finish (get_deliveries id) r t = deliveries_loaded r t
finish (create_webhook values) r t = webhook_created r t
finish (regenerate_webhook_secret id) r t = secret_regenerated r t
finish (retry_delivery id event) r t =
    queued (join "Retry queued for " event) "Failed to queue retry" id r t
finish (replay_dlq id event) r t =
    queued (join "DLQ replay queued for " event) "Failed to replay DLQ event" id r t
