-- ===== src/Web/Webhooks/Pressing.antt =====
-- apps/web/src/components/agentFoundation/WebhooksTab.tsx: what the user does, and the end of a call.
use agentunited.Prelude.{
  ℕ, String, Bool, true, false, not, ◌&&◌, Option, none, some, [], ◌∷◌, ◌++◌, keep, find, str_eq,
  if◌then◌else◌,
}
use agentunited.Web.Forms.{call_at, without}
use agentunited.Web.Webhooks.{
  Tab, Call, Answer, Values, WebhookItem, DeliveryItem, create_webhook, regenerate_webhook_secret,
  retry_delivery, replay_dlq, load_webhooks, is_same, finish, set_selected,
}

-- The first effect.
unfoldable pub mount : Tab → Tab
unfolding load_webhooks
mount t = load_webhooks none t

unfoldable pub open_create : Tab → Tab
open_create t = record t { is_create_open = true }

unfoldable pub cancel_create : Tab → Tab
cancel_create t = record t { is_create_open = false }

unfoldable pub close_secret : Tab → Tab
close_secret t = record t { secret_modal = none }

-- A box of the form.
unfoldable pub toggle_event : Bool → String → Tab → Tab
toggle_event checked name t =
    let next =
      if checked
      then t.form.events ++ name ∷ []
      else keep (λ e. not (str_eq e name)) t.form.events in
    record t { form = record t.form { events = next } }

-- The button Save, which is disabled while something is submitted, and onCreateWebhook.
unfoldable pub submit : (Values → Bool) → Tab → Tab
submit valid t =
    if t.is_create_open && not t.is_submitting && valid t.form
    then record t {
      is_submitting = true;
      error = none;
      success = none;
      calls = t.calls ++ create_webhook t.form ∷ [];
    }
    else t

-- The endpoint that is shown, with its button.
unfoldable pub selected_webhook : Tab → Option WebhookItem
selected_webhook t =
    find (λ (w : WebhookItem). is_same (some w.id) t.selected_webhook_id) t.webhooks

abbrev pub regenerate_for : Option WebhookItem → Tab → Tab
regenerate_for none t = t
regenerate_for (some w) t = if t.is_submitting then t else record t {
  is_submitting = true;
  error = none;
  calls = t.calls ++ regenerate_webhook_secret w.id ∷ [];
}

unfoldable pub on_regenerate_secret : Tab → Tab
unfolding selected_webhook
on_regenerate_secret t = regenerate_for (selected_webhook t) t

-- `if (!selectedWebhookId) return` and the call.
abbrev pub requested : (String → Call) → Option String → Tab → Tab
requested call none t = t
requested call (some id) t =
    if str_eq id "" then t else record t { error = none; calls = t.calls ++ call id ∷ [] }

-- The buttons of a delivery, which only a failed one and one in the queue of dead letters have.
unfoldable pub on_retry_delivery : DeliveryItem → Tab → Tab
on_retry_delivery d t =
    if str_eq d.status "failed"
    then requested (λ id. retry_delivery id d.event_id) t.selected_webhook_id t
    else t

unfoldable pub on_replay_dlq : DeliveryItem → Tab → Tab
on_replay_dlq d t =
    if str_eq d.status "dlq"
    then requested (λ id. replay_dlq id d.event_id) t.selected_webhook_id t
    else t

-- The call at an index ends: the answer is the service's.
unfoldable pub end_call : ((c : Call) → Answer c) → Option Call → Tab → Tab
unfolding finish
end_call service none t = t
end_call service (some c) t = finish c (service c) t

unfoldable pub answer : ((c : Call) → Answer c) → ℕ → Tab → Tab
unfolding end_call
answer service i t = end_call service (call_at i t.calls) (record t { calls = without i t.calls })

-- A click on an endpoint.
unfoldable pub select : String → Tab → Tab
unfolding set_selected
select id t = set_selected (some id) t
