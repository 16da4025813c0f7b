-- ===== src/Web/Page/Tests.antt =====
-- The chat page on two channels and an agent.
use Prim.Native.Char.{Char}
use agentunited.Prelude.{
  ℕ, String, Bool, true, false, none, some, List, [], ◌∷◌, ◌≡◌, refl, arith, eq_iff, inr, map,
}
use agentunited.Prelude.Dict.{Dict, lookup, insert}
use agentunited.Web.Chat.{Channel, Message, human}
use agentunited.Web.Page.{
  Page, make, Entry, ApiUser, failed_invites, handle_key_down, read_selected,
  mark_conversation_read, read_channel, channel, mark_read, handle_close_search,
}
use agentunited.Web.Page.Tips
use agentunited.Web.Page.Tips.{
  Toast, Event, sets, waits, no_toast, set_toast, wait, startup_lasting, guide_tip,
}
use agentunited.Web.Page.Selection.{selects_dm, deletes, run, run-IsExclusive, IsExclusive}
use agentunited.Web.Page.Reply.{start, timer_fired, changed}
use agentunited.Web.Page.Reply.Indicator.{indicator_lem}
use agentunited.Web.Composer.{Composer, error}
use agentunited.Web.Api.{send_message_with_attachment}
use agentunited.Web.Services.{Outcome}
use agentunited.Web.Page.Sending.{uploaded, handle_send_message}

abbrev run_toasts : List Event → Toast
run_toasts es = Tips.run startup_lasting es no_toast

abbrev a_channel : String → Channel
a_channel id = record { id = id; name = id; topic = ""; member_count = none; unread = 1 }

abbrev start_page : Page
start_page = record {
  channels = [];
  direct_messages = [];
  selected_channel_id = "";
  selected_dm_id = "";
  channels_loading = true;
  channels_error = none;
  show_create_channel = false;
  show_new_dm = false;
  show_members_panel = false;
  sidebar_open = false;
  channel_create_warning = none;
  startup_toast = none;
  search_query = "";
  is_searching = false;
  channel_members = [];
  user_directory = [];
}

starts_so : make ≡ start_page
unfolding make
starts_so = refl

abbrev two : Page
two = record start_page {
  channels = a_channel "c1" ∷ a_channel "c2" ∷ [];
  selected_channel_id = "c1";
}

abbrev lower : String → String
lower text = text

abbrev show : ℕ → String
show n = "1"

abbrev is_space : Char → Bool
is_space c = false

abbrev upper : Char → Char
upper c = c

abbrev message : String → Bool → Message
message id own = record {
  id = id;
  channel_id = "c1";
  author = "x";
  author_id = "u1";
  author_type = human;
  text = "hi";
  timestamp = "now";
  is_own_message = own;
}

abbrev ann : ApiUser
ann = record { id = "u1"; email = some "ann@h"; display_name = some "Ann"; user_type = none }

one_failed : failed_invites (λ a. false) ("a1" ∷ []) 0 ≡ 1
unfolding failed_invites
one_failed = refl

escaped :
    (handle_key_down
      (record { meta_key = false; ctrl_key = false; alt_key = false; key = "Escape" })
      (record two { is_searching = true; search_query = "x"; sidebar_open = true }))
    ≡ two
unfolding handle_key_down handle_close_search
escaped = refl

with_focus : read_selected two ≡ mark_read channel "c1" ∷ []
unfolding read_selected
with_focus = refl

read :
    map (λ (c : Channel). c.unread) (mark_conversation_read channel "c2" true two).channels
    ≡ 1 ∷ 0 ∷ []
unfolding mark_conversation_read read_channel
read = refl

run-IsExclusive_example : IsExclusive (run lower show (selects_dm "d1" ∷ deletes "c1" ∷ []) two)
run-IsExclusive_example =
    run-IsExclusive lower show (selects_dm "d1" ∷ deletes "c1" ∷ []) two
      (tt, (ground (arith, eq_iff "c1" ""), tt)) (inr refl)

abbrev users : Dict Entry
users = ("u1", record { display = "Ann"; user_type = human }) ∷ []

indicator_lem_example :
    (timer_fired (changed "c1" true (message "m1" true ∷ []) start)).show_agent_no_reply_indicator
    ≡ true
indicator_lem_example =
    (indicator_lem "c1" [] (message "m1" true) (message "m2" false) start
      (ground (arith, eq_iff "c1" "")) refl refl (ground (arith, eq_iff "m1" ""))
      (ground (arith, eq_iff "m2" "m1")) refl).1

-- A file above the limit stays in the input, under an error.
abbrev at_c1 : Page
at_c1 = record start_page { selected_channel_id = "c1" }

abbrev draft : Composer
draft = record agentunited.Web.Composer.make {
  value = "see";
  selected_file = some (record { name = "b.txt"; size = 20000000 });
}

abbrev call : Outcome Bool
call =
    uploaded
      (send_message_with_attachment show "c1" "see" 20000000 none
        (record { storage = []; location = "/chat" })).2

told : handle_send_message none call at_c1 ≡ (at_c1, error "File size must be less than 10MB")
unfolding handle_send_message send_message_with_attachment
told = refl

-- A toast is set again while it is shown: the timer goes on, and another text starts it anew.
toasted :
    ((run_toasts (sets (some "a") ∷ waits 2000 ∷ sets (some "a") ∷ waits 1000 ∷ [])).text ≡ none)
    × ((run_toasts (sets (some "a") ∷ waits 2000 ∷ sets (some "b") ∷ waits 1000 ∷ [])).left
        ≡ some 2000)
unfolding Tips.run set_toast wait
toasted = (refl, refl)

tipped : (guide_tip (("au:plan-upgraded", "1") ∷ []) []).1 ≡ true
unfolding guide_tip lookup insert
tipped = refl
