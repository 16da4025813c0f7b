-- ===== src/Web/Composer/Sending.antt =====
-- Sequences of events of the message input, where the page lets an event through only while its
-- control is enabled.
use agentunited.Prelude.{
  ℕ, ◌≤◌, String, Bool, true, false, not, Option, none, some, List, [], ◌∷◌, str_eq, leb, is_some,
  if◌then◌else◌, ◌≡◌, refl, arith, ◌⊎◌, if-either,
}
use agentunited.Web.Mentions.{
  Member, Mention, Mentions, Completed, Key, handle_key_down, select_mention,
}
use agentunited.Web.Composer.{
  Composer, File, Sent, Ending, succeeds, error, other_exception, handle_value_change,
  handle_file_select, handle_remove_file, handle_mention_select, handle_cursor_change,
  insert_mention, settle, can_send, handle_submit, handle_textarea_key_down, max_size, has_content,
  add_mention, complete, submits,
}

pub data Event : Type 0 where
  types : String → ℕ → Event
  picks_file : Option File → Event
  removes_file : Event
  selects : Member → Event
  moves_cursor : ℕ → Event
  inserts_mention : ℕ → Event
  presses : Key → Bool → ℕ → Event
  clicks_send : Event
  ends : Ending → Event

-- No file above the limit.
abbrev pub IsSmall : Option File → Type 0
IsSmall none = Unit
IsSmall (some f) = f.size ≤ 10485760

module _ (trim lower : String → String) (members : List Member) where
  -- The textarea, the picker of files and the button for a mention are disabled during an upload,
  -- the button that sends unless there is something to send; a call can end only if there is one.
  unfoldable pub enabled : Event → Composer → Bool
  unfolding can_send
  enabled (types value cursor) c = not c.is_uploading
  enabled (picks_file f) c = not c.is_uploading
  enabled removes_file c = is_some c.selected_file
  enabled (selects m) c = c.mentions.is_showing_mentions
  enabled (moves_cursor cursor) c = not c.is_uploading
  enabled (inserts_mention cursor) c = not c.is_uploading
  enabled (presses key shift selection) c = not c.is_uploading
  enabled clicks_send c = can_send trim lower members c
  enabled (ends how) c = c.is_uploading

  unfoldable pub handle : Event → Composer → Composer × Option Sent
  unfolding handle_value_change handle_file_select handle_remove_file handle_mention_select
      handle_cursor_change insert_mention settle handle_submit handle_textarea_key_down
  handle (types value cursor) c = (handle_value_change value cursor c, none)
  handle (picks_file f) c = (handle_file_select f c, none)
  handle removes_file c = (handle_remove_file c, none)
  handle (selects m) c = (handle_mention_select m c, none)
  handle (moves_cursor cursor) c = (handle_cursor_change cursor c, none)
  handle (inserts_mention cursor) c = (insert_mention cursor c, none)
  handle (presses key shift selection) c =
      handle_textarea_key_down trim lower members key shift selection c
  handle clicks_send c = handle_submit trim lower members c
  handle (ends how) c = (settle how c, none)

  unfoldable pub step : Event → Composer → Composer × Option Sent
  unfolding enabled handle
  step e c = if enabled e c then handle e c else (c, none)

  -- What a sequence of events sends, the last message first.
  unfoldable pub run : List Event → Composer → List Sent → Composer × List Sent
  unfolding step
  run [] c sent = (c, sent)
  run (e ∷ es) c sent =
      let next = step e c in run es next.0 (elim next.1 [ none ↦ sent | some s ↦ s ∷ sent ])

  -- A message that may be sent: a text that is not blank or a file, and no file above the limit.
  abbrev pub IsSendable : Sent → Type 0
  IsSendable s =
      ((str_eq (trim s.message) "" ≡ false) ⊎ (is_some s.attachment ≡ true)) × IsSmall s.attachment

  abbrev pub AreSendable : List Sent → Type 0
  AreSendable [] = Unit
  AreSendable (s ∷ rest) = IsSendable s × AreSendable rest

  abbrev pub IsSentWell : Option Sent → Type 0
  IsSentWell none = Unit
  IsSentWell (some s) = IsSendable s

  content :
      (c : Composer)
      → has_content trim lower members c ≡ true
      → (str_eq (trim c.value) "" ≡ false) ⊎ (is_some c.selected_file ≡ true)
  content c full = ground arith

  abbrev pub IsSound : Composer × Option Sent → Type 0
  IsSound result = IsSmall result.0.selected_file × IsSentWell result.1

  submit-IsSound :
      (c : Composer) → IsSmall c.selected_file → IsSound (handle_submit trim lower members c)
  unfolding handle_submit
  submit-IsSound c small =
      if-either IsSound (has_content trim lower members c)
        (λ full. (small, (content c full, small))) (λ bare. (small, tt))

  file-IsSmall :
      (f : Option File) (c : Composer)
      → IsSmall c.selected_file
      → IsSmall (handle_file_select f c).selected_file
  unfolding handle_file_select
  file-IsSmall none c small = small
  file-IsSmall (some f) c small =
      if-either (λ (r : Composer). IsSmall r.selected_file) (leb f.size max_size)
        (λ fits. ground arith) (λ large. small)

  add_mention-IsSmall :
      (m : Option Mention) (c : Composer)
      → IsSmall c.selected_file
      → IsSmall (add_mention m c).selected_file
  unfolding add_mention
  add_mention-IsSmall none c small = small
  add_mention-IsSmall (some m) c small = small

  settle-IsSmall :
      (how : Ending) (c : Composer) → IsSmall c.selected_file → IsSmall (settle how c).selected_file
  unfolding settle
  settle-IsSmall succeeds c small = tt
  settle-IsSmall (error why) c small = small
  settle-IsSmall other_exception c small = small

  key-IsSound :
      (key : Key) (shift : Bool) (selection : ℕ) (c : Composer)
      → IsSmall c.selected_file
      → IsSound (handle_textarea_key_down trim lower members key shift selection c)
  unfolding handle_textarea_key_down handle_value_change complete add_mention
  key-IsSound key shift selection c small =
      let taken = handle_key_down lower members key c.value c.cursor_position c.mentions in
      if-either IsSound taken.1 (λ yes. completion-IsSound taken.0 taken.2)
        (λ no.
          if-either IsSound (submits trim lower members key shift) (λ sends. submit-IsSound c small)
            (λ stays. (small, tt)))
    where
      completion-IsSound :
          (after : Mentions) (done : Option Completed)
          → IsSound (elim done [
            | none ↦ (record c { mentions = after }, none)
            | some d ↦ (complete trim lower members selection after d c, none)
          ])
      completion-IsSound after none = (small, tt)
      completion-IsSound after (some d) =
          (add_mention-IsSmall d.selected (record c { mentions = after }) small, tt)

  handle-IsSound : (e : Event) (c : Composer) → IsSmall c.selected_file → IsSound (handle e c)
  unfolding handle handle_value_change handle_remove_file handle_mention_select handle_cursor_change
      insert_mention
  handle-IsSound (types value cursor) c small = (small, tt)
  handle-IsSound (picks_file f) c small = (file-IsSmall f c small, tt)
  handle-IsSound removes_file c small = (tt, tt)
  handle-IsSound (selects m) c small = (
    add_mention-IsSmall (select_mention m c.value c.cursor_position c.mentions).1.selected c small,
    tt,
  )
  handle-IsSound (moves_cursor cursor) c small = (small, tt)
  handle-IsSound (inserts_mention cursor) c small = (small, tt)
  handle-IsSound (presses key shift selection) c small = key-IsSound key shift selection c small
  handle-IsSound clicks_send c small = submit-IsSound c small
  handle-IsSound (ends how) c small = (settle-IsSmall how c small, tt)

  collect-AreSendable :
      (sent : List Sent) (o : Option Sent)
      → AreSendable sent
      → IsSentWell o
      → AreSendable (elim o [ none ↦ sent | some s ↦ s ∷ sent ])
  collect-AreSendable sent none all well = all
  collect-AreSendable sent (some s) all well = (well, all)

  -- Whatever the user does and however the calls end, every message that is sent has a text that is
  -- not blank or a file, and its file has at most 10 * 1024 * 1024 bytes.
  pub run-AreSendable :
      (es : List Event) (c : Composer) (sent : List Sent)
      → IsSmall c.selected_file
      → AreSendable sent
      → AreSendable (run es c sent).1
  unfolding run step
  run-AreSendable [] c sent small all = all
  run-AreSendable (e ∷ es) c sent small all =
      let (small_next, well) =
        if-either IsSound (enabled e c) (λ on. handle-IsSound e c small) (λ off. (small, tt)) in
      run-AreSendable es (step e c).0 _ small_next (collect-AreSendable sent (step e c).1 all well)

  -- While a call of onSend runs, no event sends a message.
  pub uploading_sends_nothing :
      (e : Event) (c : Composer) → c.is_uploading ≡ true → (step e c).1 ≡ none
  unfolding step enabled handle can_send
  uploading_sends_nothing (types value cursor) c busy = rw busy refl
  uploading_sends_nothing (picks_file f) c busy = rw busy refl
  uploading_sends_nothing removes_file c busy = ground arith
  uploading_sends_nothing (selects m) c busy = ground arith
  uploading_sends_nothing (moves_cursor cursor) c busy = rw busy refl
  uploading_sends_nothing (inserts_mention cursor) c busy = rw busy refl
  uploading_sends_nothing (presses key shift selection) c busy = rw busy refl
  uploading_sends_nothing clicks_send c busy =
      if-either (λ (r : Composer × Option Sent). r.1 ≡ none) (can_send trim lower members c)
        (λ on. ground arith) (λ off. refl)
  uploading_sends_nothing (ends how) c busy = rw busy refl

  -- A message whose sending fails stays as it is, under the error, and sending it again calls onSend
  -- with the very same message.
  pub failed_send_repeats :
      (c : Composer) (why : String)
      → has_content trim lower members c ≡ true
      → c.is_uploading ≡ false
      → let failed = (step (ends (error why)) (step clicks_send c).0).0 in
        ((step clicks_send failed).1
          ≡ some (record {
            message = c.value;
            mentions = c.current_mentions;
            attachment = c.selected_file;
          }))
        × (failed.upload_error ≡ some why)
  unfolding step enabled handle handle_submit settle can_send
  failed_send_repeats c why full idle = rw (full, idle, full) (refl, refl)

  -- A mention that was chosen goes along with the next message, whatever the text is by then.
  pub mentions_outlive_text :
      (c : Composer) (text : String) (cursor : ℕ)
      → c.is_uploading ≡ false
      → str_eq (trim text) "" ≡ false
      → (step clicks_send (step (types text cursor) c).0).1
        ≡ some
            (record { message = text; mentions = c.current_mentions; attachment = c.selected_file })
  unfolding step enabled handle handle_submit can_send handle_value_change
  mentions_outlive_text c text cursor idle full = rw (idle, full) refl
