-- ===== src/Web/Webhooks/Deliveries.antt =====
-- Whose deliveries are shown.
use agentunited.Prelude.{
  ℕ, String, false, Option, none, some, List, [], ◌∷◌, ◌++◌, str_eq, ◌≡◌, refl, ap, ◌∙◌,
}
use agentunited.Web.Forms.{Result, failed, answered, call_at, without}
use agentunited.Web.Webhooks.{
  Tab, Call, Answer, DeliveryItem, get_deliveries, load_deliveries, is_same, selection_changed,
  set_selected, deliveries_loaded, finish,
}
use agentunited.Web.Webhooks.Pressing.{select, end_call, answer}

module _ (service : (c : Call) → Answer c) where
  abbrev pub listed : Result (List DeliveryItem) → List DeliveryItem
  listed (failed message) = []
  listed (answered items) = items

  -- The deliveries of a selected endpoint.
  abbrev pub deliveries_of : Option String → List DeliveryItem
  deliveries_of none = []
  deliveries_of (some id) = listed (service (get_deliveries id))

  -- What the end of a call of the deliveries leaves.
  loaded-listed :
      (r : Result (List DeliveryItem)) (t : Tab)
      → ((deliveries_loaded r t).deliveries ≡ listed r)
        × ((deliveries_loaded r t).selected_webhook_id ≡ t.selected_webhook_id)
        × ((deliveries_loaded r t).calls ≡ t.calls)
        × ((deliveries_loaded r t).is_deliveries_loading ≡ false)
  unfolding deliveries_loaded
  loaded-listed (failed message) t = (refl, refl, refl, refl)
  loaded-listed (answered items) t = (refl, refl, refl, refl)

  answer-at :
      (i : ℕ) (cs : List Call) (t : Tab)
      → t.calls ≡ cs
      → answer service i t ≡ end_call service (call_at i cs) (record t { calls = without i cs })
  unfolding answer
  answer-at i cs t e =
      ap (λ ds. end_call service (call_at i ds) (record t { calls = without i ds })) e

  -- Of two calls of the deliveries, the second ends first.
  crossed :
      (a b : String) (t : Tab)
      → t.calls ≡ get_deliveries a ∷ get_deliveries b ∷ []
      → let u = answer service 0 (answer service 1 t) in
        (u.selected_webhook_id ≡ t.selected_webhook_id)
        × (u.deliveries ≡ deliveries_of (some a))
        × (u.calls ≡ [])
        × (u.is_deliveries_loading ≡ false)
  unfolding end_call finish
  crossed a b t e =
      let first = answer-at 1 (get_deliveries a ∷ get_deliveries b ∷ []) t e in
      let rest = record t { calls = get_deliveries a ∷ [] } in
      let (shown, kept, left, done) = loaded-listed (service (get_deliveries b)) rest in
      let v = answer service 1 t in
      let second = answer-at 0 (get_deliveries a ∷ []) v (ap (λ (u : Tab). u.calls) first ∙ left) in
      let last = record v { calls = [] } in
      let (shown', kept', left', done') = loaded-listed (service (get_deliveries a)) last in
      (
        ap (λ (u : Tab). u.selected_webhook_id) second
            ∙ kept'
            ∙ ap (λ (u : Tab). u.selected_webhook_id) first
            ∙ kept,
        ap (λ (u : Tab). u.deliveries) second ∙ shown',
        ap (λ (u : Tab). u.calls) second ∙ left',
        ap (λ (u : Tab). u.is_deliveries_loading) second ∙ done',
      )

  select-loads :
      (id : String) (t : Tab)
      → is_same t.selected_webhook_id (some id) ≡ false
      → str_eq id "" ≡ false
      → select id t ≡ load_deliveries id (record t { selected_webhook_id = some id })
  unfolding select set_selected selection_changed load_deliveries
  select-loads id t other full = rw (other, full) refl

  -- With no call under way, two endpoints are selected one after the other, the first of them not the
  -- one selected before, and the answer for the second comes first: in the end no call is under
  -- way and the second is selected, with the deliveries of the first.
  pub late_deliveries :
      (a b : String) (t : Tab)
      → t.calls ≡ []
      → is_same t.selected_webhook_id (some a) ≡ false
      → str_eq a b ≡ false
      → str_eq a "" ≡ false
      → str_eq b "" ≡ false
      → let u = answer service 0 (answer service 1 (select b (select a t))) in
        (u.selected_webhook_id ≡ some b)
        × (u.deliveries ≡ deliveries_of (some a))
        × (u.calls ≡ [])
        × (u.is_deliveries_loading ≡ false)
  unfolding load_deliveries
  late_deliveries a b t idle other apart full full' =
      let t1 = load_deliveries a (record t { selected_webhook_id = some a }) in
      let both : select b (select a t)
          ≡ load_deliveries b (record t1 { selected_webhook_id = some b }) =
        ap (select b) (select-loads a t other full) ∙ select-loads b t1 apart full' in
      let calls : (select b (select a t)).calls ≡ get_deliveries a ∷ get_deliveries b ∷ [] =
        ap (λ (u : Tab). u.calls) both
        ∙ ap (λ cs. (cs ++ get_deliveries a ∷ []) ++ get_deliveries b ∷ []) idle in
      let (chosen, shown, left, done) = crossed a b (select b (select a t)) calls in
      (chosen ∙ ap (λ (u : Tab). u.selected_webhook_id) both, shown, left, done)
