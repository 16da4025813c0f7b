-- ===== src/Web/Webhooks/Tests.antt =====
-- Two endpoints, with the answers in both orders.
use agentunited.Prelude.{String, Bool, true, none, some, List, [], ◌∷◌, refl, str_eq, if◌then◌else◌}
use agentunited.Web.Forms.{failed, answered}
use agentunited.Web.Webhooks.{
  make, Call, Answer, Values, WebhookItem, DeliveryItem, get_webhooks, get_deliveries,
  create_webhook, regenerate_webhook_secret, retry_delivery, replay_dlq,
}
use agentunited.Web.Webhooks.Submitting as busy
use agentunited.Web.Webhooks.Ordered as ordered

abbrev endpoint : String → WebhookItem
endpoint id = record { id = id; url = "u"; events = []; status = "healthy" }

abbrev delivery : String → DeliveryItem
delivery id = record { event_id = id; event = "message.created"; status = "failed"; attempt = 1 }

abbrev service : (c : Call) → Answer c
service (get_webhooks after) = answered (endpoint "a" ∷ endpoint "b" ∷ [])
service (get_deliveries id) = if str_eq id "c" then failed none else answered (delivery id ∷ [])
service (create_webhook values) = answered (record { id = "n"; secret = "s" })
service (regenerate_webhook_secret id) = answered "s"
service (retry_delivery id event) = answered tt
service (replay_dlq id event) = failed (some "no")

abbrev valid : Values → Bool
valid v = true

abbrev walk : List ordered.Event
walk = ordered.mounts ∷ ordered.ends ∷ ordered.selects "b" ∷ ordered.ends ∷ ordered.ends ∷ []

abbrev clicks : List busy.Event
clicks =
    busy.opens
    ∷ busy.submits
    ∷ busy.submits
    ∷ busy.ends service 0
    ∷ busy.ends service 0
    ∷ busy.regenerates
    ∷ []

run-IsBusy_example : busy.IsBusy (busy.run valid clicks make)
run-IsBusy_example = busy.run-IsBusy valid clicks make refl
