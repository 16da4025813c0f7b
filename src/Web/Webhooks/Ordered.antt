-- ===== src/Web/Webhooks/Ordered.antt =====
-- Whose deliveries are shown where calls end in the order in which they began.
use agentunited.Prelude.{
  String, Bool, true, false, not, Option, none, some, List, [], ◌∷◌, All, str_eq, ◌≡◌, ◌⊎◌,
}
use agentunited.Web.Webhooks.{
  Tab, Call, Answer, Values, DeliveryItem, get_deliveries, retry_delivery, replay_dlq,
}
use agentunited.Web.Webhooks.Pressing.{select, submit, on_regenerate_secret, mount, answer}
use agentunited.Web.Webhooks.Deliveries.{deliveries_of}

-- The oldest call ends; deliveries are not retried.
pub data Event : Type 0 where
  mounts submits regenerates ends : Event
  selects : String → Event

-- A call behind which no deliveries are loaded, but for those of a new selection.
abbrev pub is_plain : Call → Bool
is_plain (retry_delivery id event) = false
is_plain (replay_dlq id event) = false
is_plain _ = true

abbrev pub ArePlain : List Call → Type 0
ArePlain = All (λ c. is_plain c ≡ true)

abbrev pub or_later : Option String → String → Option String
or_later none id = some id
or_later (some later) id = some later

-- The last of the calls for deliveries that are under way.
abbrev pub latest : List Call → Option String
latest [] = none
latest (get_deliveries id ∷ cs) = or_later (latest cs) id
latest (_ ∷ cs) = latest cs

abbrev pub has_selection : Option String → Bool
has_selection none = false
has_selection (some id) = not (str_eq id "")

-- A call that is not for deliveries.
abbrev Other : Call → Type 0
Other c = (rest : List Call) → latest (c ∷ rest) ≡ latest rest

module _ (service : (c : Call) → Answer c) (valid : Values → Bool) where
  -- With a selection: the last call for deliveries is for it, or its deliveries are shown.
  abbrev pub Shows : Option String → Option String → List DeliveryItem → Type 0
  Shows none selected shown =
      (shown ≡ deliveries_of service selected) ⊎ (has_selection selected ≡ false)
  Shows (some id) selected shown = (selected ≡ some id) ⊎ (has_selection selected ≡ false)

  abbrev pub IsCurrent : Tab → Type 0
  IsCurrent t = ArePlain t.calls × Shows (latest t.calls) t.selected_webhook_id t.deliveries

  unfoldable pub step : Event → Tab → Tab
  unfolding mount select submit on_regenerate_secret answer
  step mounts t = mount t
  step submits t = submit valid t
  step regenerates t = on_regenerate_secret t
  step ends t = answer service 0 t
  step (selects id) t = select id t

  unfoldable pub run : List Event → Tab → Tab
  unfolding step
  run [] t = t
  run (e ∷ es) t = run es (step e t)
