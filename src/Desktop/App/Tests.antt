-- ===== src/Desktop/App/Tests.antt =====
-- Three channels, walked through with keys and the menu, and a message of one of them.
use agentunited.Prelude.{
  ℕ, String, Bool, true, false, ◌&&◌, any, str_eq, Option, none, some, List, [], ◌∷◌, map, keep,
  All, ◌≡◌, refl,
}
use agentunited.Desktop.Hook.{Hook, ChannelData, MessageData, human}
use agentunited.Desktop.Native.{Native}
use agentunited.Desktop.Shell.{app_config}
use agentunited.Desktop.App.{
  App, make, view_of, find_index, handle_previous_channel, handle_next_channel,
}
use agentunited.Desktop.Shell.Menus.{Item, Menu, item, action, template, dock_template}
use agentunited.Desktop.App.Keys.{Callback, actions}
use agentunited.Desktop.App.Places.{IsAt}
use agentunited.Desktop.App.Navigating.{round_trip}
use agentunited.Desktop.App.Fresh.{Event, presses, clicks, chooses, run}
use agentunited.Desktop.App.Shortcuts.{Agrees, TogglesApart, accelerated, run-Agrees, command}
use agentunited.Desktop.App.Notifying.{
  notify, notify_lem, notice_of, is_recent, is_wanted, all_messages,
}

abbrev channel : String → ChannelData
channel id = record { id = id; name = id; topic = none; last_message = none; unread_count = 2 }

abbrev message : MessageData
message = record {
  id = "m1";
  channel_id = "dm_7";
  content = "hello";
  author = record { id = "7"; name = "Ada"; kind = human };
  timestamp = "t";
  mentions = [];
  attachments = [];
}

abbrev hook : Hook
hook = record {
  connected = true;
  connecting = false;
  messages = ("dm_7", message ∷ []) ∷ [];
  channels = channel "a" ∷ channel "b" ∷ channel "c" ∷ [];
  users = [];
  current_user = none;
  active_channel = some "b";
  typing_users = [];
  typing_timeouts = [];
}

abbrev native : Native
native = record { is_electron = true; app_config = some app_config; dock_badge_count = 0 }

abbrev app : App
app = make hook native

abbrev lower : String → String
lower s = s

abbrev time_of : String → Option ℕ
time_of s = some 6000

second-IsAt : IsAt 1 app
unfolding find_index
second-IsAt = (((refl, (refl, tt)), ((refl, tt), (tt, tt))), refl)

round_trip_example :
    ((handle_previous_channel
        (view_of (handle_next_channel (view_of app) app))
        (handle_next_channel (view_of app) app)).hook.active_channel
      ≡ app.hook.active_channel)
    × ((handle_next_channel
          (view_of (handle_previous_channel (view_of app) app))
          (handle_previous_channel (view_of app) app)).hook.active_channel
        ≡ app.hook.active_channel)
round_trip_example = round_trip 1 app second-IsAt

abbrev events : List Event
events = presses (command "]") ∷ clicks "toggle-sidebar" none ∷ chooses "b" ∷ []

run-Agrees_example : All (Agrees (run events app)) accelerated × TogglesApart (run events app)
run-Agrees_example = run-Agrees events hook native (refl, (refl, (refl, tt))) (tt, (tt, (refl, tt)))

notify_lem_example :
    notify lower time_of 9000 app
    ≡ map (notice_of lower time_of hook.channels) (
        keep
          (is_wanted lower time_of app_config)
          (keep (is_recent lower time_of 9000) (all_messages hook.messages)))
notify_lem_example = notify_lem lower time_of 9000 app_config app refl refl refl refl

-- Every action that an item of the menus sends has a handler.
is_handled : Item → Bool
unfolding actions
is_handled (item label key (action name index)) =
    any (λ (c : String × Callback). str_eq c.0 name) actions
is_handled _ = true

all_of : List Item → Bool
all_of [] = true
all_of (i ∷ is) = is_handled i && all_of is

all_handled : List Menu → Bool
all_handled [] = true
all_handled ((label, items) ∷ menus) = all_of items && all_handled menus

menus_handled : (all_handled template ≡ true) × (all_of dock_template ≡ true)
unfolding all_handled all_of is_handled
menus_handled = (refl, refl)
