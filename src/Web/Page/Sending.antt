-- ===== src/Web/Page/Sending.antt =====
-- handleSendMessage of apps/web/src/pages/ChatPage.tsx, which the message input calls as onSend. The
-- call of the socket or of the upload is an argument, by what it comes to; `dm` is the type of the
-- selected direct message and whether it is online, and `none` where none is listed.
use agentunited.Prelude.{
  [], ap, String, Bool, true, false, not, ◌&&◌, Option, none, some, str_eq, is_some, if◌then◌else◌,
  ◌≡◌, refl,
}
use agentunited.Web.Chat.{AuthorType, agent}
use agentunited.Web.Services.{Outcome, returns, throws, fails}
use agentunited.Web.Composer.{
  Composer, Ending, succeeds, error, other_exception, settle, handle_submit, has_content,
}
use agentunited.Web.Page.State.{Page}

-- `sent`: an upload that does not throw is sent, and sendMessage says whether it is.
abbrev pub uploaded {ℓ} : {A : Type ℓ} → Outcome A → Outcome Bool
uploaded (returns a) = returns true
uploaded (throws why) = throws why
uploaded fails = fails

abbrev pub active_conversation : Page → String
active_conversation p =
    if str_eq p.selected_dm_id "" then p.selected_channel_id else p.selected_dm_id

abbrev is_offline_agent : Option (AuthorType × Bool) → Bool
is_offline_agent (some (agent, online)) = not online
is_offline_agent _ = false

abbrev offline_toast : String
offline_toast =
    "Agent is offline — your message was delivered and will be read when they reconnect."

unfoldable pub delivered : Option (AuthorType × Bool) → Page → Page
delivered dm p =
    if not (str_eq p.selected_dm_id "") && is_offline_agent dm
    then record p { startup_toast = some offline_toast }
    else p

-- What becomes of the call.
unfoldable pub finish : Option (AuthorType × Bool) → Outcome Bool → Page → Page × Ending
unfolding delivered
finish dm (returns true) p = (delivered dm p, succeeds)
finish dm (returns false) p = (p, error "Failed to send message")
finish dm (throws why) p = (p, error why)
finish dm fails p = (p, other_exception)

unfoldable pub handle_send_message :
    Option (AuthorType × Bool) → Outcome Bool → Page → Page × Ending
unfolding finish
handle_send_message dm call p =
    if str_eq (active_conversation p) "" then (p, succeeds) else finish dm call p

abbrev pub delivers : Outcome Bool → Bool
delivers (returns b) = b
delivers _ = false

-- The message input behind a message that it submits and the page sends.
abbrev pub sending :
    (String → String) → Option (AuthorType × Bool) → Outcome Bool → Page → Composer → Composer
sending trim dm call p c = settle (handle_send_message dm call p).1 (handle_submit trim trim [] c).0

settle_lem :
    (dm : Option (AuthorType × Bool)) (call : Outcome Bool) (p : Page) (c : Composer)
    → c.upload_error ≡ none
    → ((settle (finish dm call p).1 c).value ≡ (if delivers call then "" else c.value))
      × ((settle (finish dm call p).1 c).selected_file
          ≡ (if delivers call then none else c.selected_file))
      × (is_some (settle (finish dm call p).1 c).upload_error ≡ not (delivers call))
      × ((settle (finish dm call p).1 c).is_uploading ≡ false)
unfolding finish settle
settle_lem dm (returns true) p c clean = (refl, refl, ap is_some clean, refl)
settle_lem dm (returns false) p c clean = (refl, refl, refl, refl)
settle_lem dm (throws why) p c clean = (refl, refl, refl, refl)
settle_lem dm fails p c clean = (refl, refl, refl, refl)

-- In a conversation, a message that the input submits is gone from it exactly if the call delivered
-- it; otherwise the text and the file stay and an error is shown. The input is ready in both cases.
pub sending_lem :
    (trim : String → String) (dm : Option (AuthorType × Bool)) (call : Outcome Bool) (p : Page)
    (c : Composer)
    → str_eq (active_conversation p) "" ≡ false
    → has_content trim trim [] c ≡ true
    → ((sending trim dm call p c).value ≡ (if delivers call then "" else c.value))
      × ((sending trim dm call p c).selected_file
          ≡ (if delivers call then none else c.selected_file))
      × (is_some (sending trim dm call p c).upload_error ≡ not (delivers call))
      × ((sending trim dm call p c).is_uploading ≡ false)
unfolding handle_send_message handle_submit
sending_lem trim dm call p c active full =
    rw (active, full)
      (settle_lem dm call p (record c { is_uploading = true; upload_error = none }) refl)
