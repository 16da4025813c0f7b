-- ===== src/Web/Webhooks/Submitting.antt =====
-- That one submission is under way at a time.
use agentunited.Prelude.{
  ℕ, zero, suc, ◌+◌, String, Bool, true, false, not, ◌&&◌, Option, none, some, List, [], ◌∷◌, ◌++◌,
  str_eq, if-either, ◌≡◌, refl, sym, ap, ◌∙◌, arith,
}
use agentunited.Web.Forms.{Result, failed, answered, call_at, without}
use agentunited.Web.Webhooks.{
  Tab, Call, Answer, Values, WebhookItem, DeliveryItem, get_webhooks, get_deliveries,
  create_webhook, regenerate_webhook_secret, retry_delivery, replay_dlq, load_webhooks,
  load_deliveries, is_same, selection_changed, set_selected, selection_in, webhooks_loaded,
  created_loaded, deliveries_loaded, webhook_created, secret_regenerated, queued, finish,
}
use agentunited.Web.Webhooks.Pressing.{
  select, open_create, cancel_create, close_secret, toggle_event, submit, selected_webhook,
  regenerate_for, on_regenerate_secret, requested, on_retry_delivery, on_replay_dlq, end_call,
  answer,
}

-- Any call that is under way can end next, with any answer.
pub data Event : Type 0 where
  selects : String → Event
  opens cancels closes_secret submits regenerates : Event
  toggles : Bool → String → Event
  retries replays : DeliveryItem → Event
  ends : ((c : Call) → Answer c) → ℕ → Event

-- How many submissions a call stands for: that of the endpoints where onCreateWebhook waits for it.
abbrev pub weight : Call → ℕ
weight (create_webhook values) = 1
weight (regenerate_webhook_secret id) = 1
weight (get_webhooks (some id)) = 1
weight _ = 0

abbrev pub submissions : List Call → ℕ
submissions [] = 0
submissions (c ∷ cs) = weight c + submissions cs

abbrev pub bit : Bool → ℕ
bit true = 1
bit false = 0

-- Where isSubmitting is set, one submission is under way, and otherwise none.
abbrev pub IsBusy : Tab → Type 0
IsBusy t = submissions t.calls ≡ bit t.is_submitting

submissions-append :
    (cs : List Call) (c : Call) → submissions (cs ++ c ∷ []) ≡ submissions cs + weight c
submissions-append [] c = omega arith
submissions-append (d ∷ cs) c = omega (arith, submissions-append cs c)

-- Two states with as many submissions.
abbrev Same : Tab → Tab → Type 0
Same t u = (submissions u.calls ≡ submissions t.calls) × (u.is_submitting ≡ t.is_submitting)

light-Same :
    (cs : List Call) (c : Call) → weight c ≡ 0 → submissions (cs ++ c ∷ []) ≡ submissions cs
light-Same cs c light = omega (arith, submissions-append cs c, light)

selection_changed-Same : (id : Option String) (t : Tab) → Same t (selection_changed id t)
unfolding selection_changed load_deliveries
selection_changed-Same none t = (refl, refl)
selection_changed-Same (some id) t =
    if-either (Same t) (str_eq id "") (λ bare. (refl, refl))
      (λ full. (light-Same t.calls (get_deliveries id) refl, refl))

set_selected-Same : (id : Option String) (t : Tab) → Same t (set_selected id t)
unfolding set_selected
set_selected-Same id t =
    if-either (Same t) (is_same t.selected_webhook_id id) (λ same. (refl, refl))
      (λ other. selection_changed-Same id (record t { selected_webhook_id = id }))

webhooks_loaded-Same : (r : Result (List WebhookItem)) (t : Tab) → Same t (webhooks_loaded r t)
unfolding webhooks_loaded
webhooks_loaded-Same (failed message) t = (refl, refl)
webhooks_loaded-Same (answered items) t =
    set_selected-Same (selection_in items t.selected_webhook_id) (record t { webhooks = items })

-- A state whose submissions are those under way and that of a call that has just ended.
abbrev Ending : Call → Tab → Type 0
Ending c t = submissions t.calls + weight c ≡ bit t.is_submitting

light-IsBusy : (t u : Tab) → Same t u → submissions t.calls + 0 ≡ bit t.is_submitting → IsBusy u
light-IsBusy t u (calls, flag) busy = omega (arith, calls, busy, ap bit flag)

alone : (n : ℕ) (b : Bool) → n + 1 ≡ bit b → n ≡ 0
alone n true h = omega (arith, h)
alone n false h = omega (arith, h)

queued-Same :
    (note fallback id : String) (r : Result (Unit {0})) (t : Tab)
    → Same t (queued note fallback id r t)
unfolding queued load_deliveries
queued-Same note fallback id (failed message) t = (refl, refl)
queued-Same note fallback id (answered done) t = (light-Same t.calls (get_deliveries id) refl, refl)

finish-IsBusy : (c : Call) (r : Answer c) (t : Tab) → Ending c t → IsBusy (finish c r t)
unfolding finish created_loaded deliveries_loaded webhook_created secret_regenerated load_webhooks
finish-IsBusy (get_webhooks none) r t busy =
    light-IsBusy t (webhooks_loaded r t) (webhooks_loaded-Same r t) busy
finish-IsBusy (get_webhooks (some id)) r t busy =
    let (calls, flag) = webhooks_loaded-Same r t in
    let (calls', flag') = set_selected-Same (some id) (webhooks_loaded r t) in
    omega (arith, calls, calls', alone (submissions t.calls) t.is_submitting busy)
finish-IsBusy (get_deliveries id) (failed message) t busy = omega (arith, busy)
finish-IsBusy (get_deliveries id) (answered items) t busy = omega (arith, busy)
finish-IsBusy (create_webhook values) (failed message) t busy =
    alone (submissions t.calls) t.is_submitting busy
finish-IsBusy (create_webhook values) (answered created) t busy =
    submissions-append t.calls (get_webhooks (some created.id)) ∙ busy
finish-IsBusy (regenerate_webhook_secret id) (failed message) t busy =
    alone (submissions t.calls) t.is_submitting busy
finish-IsBusy (regenerate_webhook_secret id) (answered secret) t busy =
    alone (submissions t.calls) t.is_submitting busy
finish-IsBusy (retry_delivery id event) r t busy =
    light-IsBusy t (queued _ _ id r t) (queued-Same _ _ id r t) busy
finish-IsBusy (replay_dlq id event) r t busy =
    light-IsBusy t (queued _ _ id r t) (queued-Same _ _ id r t) busy

abbrev weight_of : Option Call → ℕ
weight_of none = 0
weight_of (some c) = weight c

submissions-without :
    (i : ℕ) (cs : List Call)
    → submissions (without i cs) + weight_of (call_at i cs) ≡ submissions cs
submissions-without i [] = refl
submissions-without zero (c ∷ cs) = omega arith
submissions-without (suc i) (c ∷ cs) = omega (arith, submissions-without i cs)

end_call-IsBusy :
    (service : (c : Call) → Answer c) (o : Option Call) (t : Tab)
    → submissions t.calls + weight_of o ≡ bit t.is_submitting
    → IsBusy (end_call service o t)
unfolding end_call
end_call-IsBusy service none t busy = omega (arith, busy)
end_call-IsBusy service (some c) t busy = finish-IsBusy c (service c) t busy

answer-IsBusy :
    (service : (c : Call) → Answer c) (i : ℕ) (t : Tab) → IsBusy t → IsBusy (answer service i t)
unfolding answer
answer-IsBusy service i t busy =
    end_call-IsBusy service (call_at i t.calls) (record t { calls = without i t.calls })
      (submissions-without i t.calls ∙ busy)

-- A submission starts where none was under way.
starts-IsBusy :
    (cs : List Call) (c : Call) (b : Bool)
    → submissions cs ≡ bit b
    → b ≡ false
    → weight c ≡ 1
    → submissions (cs ++ c ∷ []) ≡ 1
starts-IsBusy cs c b busy free one = omega (arith, submissions-append cs c, busy, ap bit free, one)

middle : (a b c : Bool) → a && not b && c ≡ true → b ≡ false
middle true false c h = refl
middle true true c h = ground arith
middle false b c h = ground arith

submit-IsBusy : (valid : Values → Bool) (t : Tab) → IsBusy t → IsBusy (submit valid t)
unfolding submit
submit-IsBusy valid t busy =
    if-either IsBusy (t.is_create_open && not t.is_submitting && valid t.form)
      (λ goes.
        starts-IsBusy t.calls (create_webhook t.form) t.is_submitting busy
          (middle t.is_create_open t.is_submitting (valid t.form) goes) refl)
      (λ stays. busy)

regenerate-IsBusy : (o : Option WebhookItem) (t : Tab) → IsBusy t → IsBusy (regenerate_for o t)
regenerate-IsBusy none t busy = busy
regenerate-IsBusy (some w) t busy =
    if-either IsBusy t.is_submitting (λ waits. busy)
      (λ free.
        starts-IsBusy t.calls (regenerate_webhook_secret w.id) t.is_submitting busy free refl)

requested-IsBusy :
    (call : String → Call) (o : Option String) (t : Tab)
    → ((id : String) → weight (call id) ≡ 0)
    → IsBusy t
    → IsBusy (requested call o t)
requested-IsBusy call none t light busy = busy
requested-IsBusy call (some id) t light busy =
    if-either IsBusy (str_eq id "") (λ bare. busy)
      (λ full. light-Same t.calls (call id) (light id) ∙ busy)

module _ (valid : Values → Bool) where
  unfoldable pub step : Event → Tab → Tab
  unfolding select open_create cancel_create close_secret submit on_regenerate_secret toggle_event
      on_retry_delivery on_replay_dlq answer
  step (selects id) t = select id t
  step opens t = open_create t
  step cancels t = cancel_create t
  step closes_secret t = close_secret t
  step submits t = submit valid t
  step regenerates t = on_regenerate_secret t
  step (toggles checked name) t = toggle_event checked name t
  step (retries d) t = on_retry_delivery d t
  step (replays d) t = on_replay_dlq d t
  step (ends service i) t = answer service i t

  unfoldable pub run : List Event → Tab → Tab
  unfolding step
  run [] t = t
  run (e ∷ es) t = run es (step e t)

  step-IsBusy : (e : Event) (t : Tab) → IsBusy t → IsBusy (step e t)
  unfolding step select open_create cancel_create close_secret on_regenerate_secret toggle_event
      on_retry_delivery on_replay_dlq
  step-IsBusy (selects id) t busy =
      let (calls, flag) = set_selected-Same (some id) t in calls ∙ busy ∙ ap bit (sym flag)
  step-IsBusy opens t busy = busy
  step-IsBusy cancels t busy = busy
  step-IsBusy closes_secret t busy = busy
  step-IsBusy submits t busy = submit-IsBusy valid t busy
  step-IsBusy regenerates t busy = regenerate-IsBusy (selected_webhook t) t busy
  step-IsBusy (toggles checked name) t busy = busy
  step-IsBusy (retries d) t busy =
      if-either IsBusy (str_eq d.status "failed")
        (λ shown.
          requested-IsBusy (λ id. retry_delivery id d.event_id) t.selected_webhook_id t (λ id. refl)
            busy)
        (λ hidden. busy)
  step-IsBusy (replays d) t busy =
      if-either IsBusy (str_eq d.status "dlq")
        (λ shown.
          requested-IsBusy (λ id. replay_dlq id d.event_id) t.selected_webhook_id t (λ id. refl)
            busy)
        (λ hidden. busy)
  step-IsBusy (ends service i) t busy = answer-IsBusy service i t busy

  -- Over any clicks and any ends of calls, in any order and with any answers, one creation or
  -- regeneration is under way exactly while isSubmitting is set: never two.
  pub run-IsBusy : (es : List Event) (t : Tab) → IsBusy t → IsBusy (run es t)
  unfolding run
  run-IsBusy [] t busy = busy
  run-IsBusy (e ∷ es) t busy = run-IsBusy es (step e t) (step-IsBusy e t busy)
