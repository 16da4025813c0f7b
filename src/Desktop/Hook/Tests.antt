-- ===== src/Desktop/Hook/Tests.antt =====
-- The hook on concrete events.
use agentunited.Prelude.{◌≡◌, refl, String, true, false, none, some, [], ◌∷◌, map}
use agentunited.Prelude.Dict.{lookup}
use agentunited.Desktop.Hook.{
  Hook, ChannelData, UserData, ApiMessage, human, online, mapped_message, typing_start,
  message_created, touched,
}
use agentunited.Desktop.Hook.Unread.{receive_all, unread-receive_all}
use agentunited.Desktop.Hook.Messages.{messages_of, messages_of-receive_all}
use agentunited.Desktop.Hook.Typing.{
  is_typing, typing_in, is_typing_lem, starts, run, Distinct, run-Distinct,
}

abbrev channel : String → ChannelData
channel id = record { id = id; name = id; topic = none; last_message = none; unread_count = 0 }

abbrev start_state : Hook
start_state = record {
  connected = true;
  connecting = false;
  messages = [];
  channels = channel "general" ∷ channel "random" ∷ [];
  users = [];
  current_user = none;
  active_channel = some "general";
  typing_users = [];
  typing_timeouts = [];
}

abbrev post : String → String → ApiMessage
post id c = record {
  id = id;
  channel_id = c;
  author_id = "u1";
  author_type = "user";
  author_email = some "";
  text = "hello";
  created_at = "now";
}

abbrev bob : UserData
bob = record { id = "u2"; name = "bob"; kind = human; status = online }

shown_stays_read :
    map
      (λ ch. ch.unread_count)
      (receive_all
        (post "1" "general" ∷ post "2" "random" ∷ post "3" "random" ∷ [])
        start_state).channels
    ≡ 0 ∷ 2 ∷ []
unfolding receive_all message_created touched
shown_stays_read = refl

unread-receive_all_example :
    map (λ ch. ch.unread_count) (receive_all (post "1" "random" ∷ []) start_state).channels
    ≡ 0 ∷ 1 ∷ []
unread-receive_all_example = (unread-receive_all (post "1" "random" ∷ []) start_state).0

messages_of-receive_all_example :
    messages_of "random" (receive_all (post "1" "general" ∷ post "2" "random" ∷ []) start_state)
    ≡ mapped_message "random" (post "2" "random") ∷ []
unfolding lookup
messages_of-receive_all_example =
    messages_of-receive_all "random" (post "1" "general" ∷ post "2" "random" ∷ []) start_state

is_typing_lem_example : is_typing "a" "u2" (typing_start "a" bob 1 start_state) ≡ true
unfolding lookup
is_typing_lem_example = (is_typing_lem "a" "a" "u2" bob 1 start_state).0

run-Distinct_example :
    Distinct (typing_in "a" (run (starts "a" bob 1 ∷ starts "a" bob 2 ∷ []) start_state))
unfolding lookup
run-Distinct_example =
    run-Distinct (starts "a" bob 1 ∷ starts "a" bob 2 ∷ []) start_state (λ c. tt) "a"
