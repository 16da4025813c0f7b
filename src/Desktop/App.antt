-- ===== src/Desktop/App.antt =====
-- apps/desktop/src/App.tsx: the root component, over the state of Hook and of Native. A handler belongs
-- to a render, whose values it reads: `seen`. The handlers of menu actions are registered anew in
-- every render, the listener of keys only where the channels are replaced, which `listening` keeps.
-- preventDefault, the log and the markup are left out.
pub mod Keys
pub mod Places
pub mod Navigating
pub mod Fresh
pub mod Shortcuts
pub mod Notifying
mod Tests
use agentunited.Prelude.{
  ℕ, zero, suc, ◌+◌, ◌-◌, String, Bool, true, false, not, ◌&&◌, ◌||◌, Option, none, some, List, [],
  ◌∷◌, ◌++◌, ltb, length, get_elem?, str_eq, if◌then◌else◌,
}
use Prim.Native.String.{◌++◌ as join}
use agentunited.Desktop.Hook.{Hook, ChannelData, set_active_channel}
use agentunited.Desktop.Shell.{Shell, Effect, Platform}
use agentunited.Desktop.Native.{Native, update_dock_badge, clear_dock_badge}

-- What a handler reads of its render.
pub record View : Type 0 where
  pub channels : List ChannelData
  pub active_channel : Option String
  pub sidebar_visible : Bool

pub record App : Type 0 where
  pub hook : Hook
  pub native : Native
  pub show_invite_window : Bool
  pub show_settings_window : Bool
  pub sidebar_visible : Bool
  pub command_palette_open : Bool
  pub app_initialized : Bool
  pub listening : View

abbrev pub view_of : App → View
view_of a = record {
  channels = a.hook.channels;
  active_channel = a.hook.active_channel;
  sidebar_visible = a.sidebar_visible;
}

abbrev pub make : Hook → Native → App
make hook native = record {
  hook = hook;
  native = native;
  show_invite_window = false;
  show_settings_window = false;
  sidebar_visible = true;
  command_palette_open = false;
  app_initialized = false;
  listening = record {
    channels = hook.channels;
    active_channel = hook.active_channel;
    sidebar_visible = true;
  };
}

-- The effect that listens to keys, where the channels were replaced.
unfoldable pub listen : App → App
listen a = record a { listening = view_of a }

abbrev pub is_chosen : Option String → String → Bool
is_chosen none id = false
is_chosen (some active) id = str_eq active id

-- setActiveChannel with another channel than the active one.
unfoldable pub switch_to : String → App → App
unfolding set_active_channel listen
switch_to id a =
    let chosen = record a { hook = set_active_channel (some id) a.hook } in
    if str_eq id "" then chosen else listen chosen

-- setActiveChannel: the effect on it replaces the channels, unless the id is empty. The channel that
-- is active already changes nothing, and runs no effect.
unfoldable pub select : String → App → App
unfolding switch_to
select id a = if is_chosen a.hook.active_channel id then a else switch_to id a

-- A change that the hook makes on its own, and whether it replaces the channels.
unfoldable pub hook_changed : Bool → Hook → App → App
unfolding listen
hook_changed replaced hook a =
    let next = record a { hook = hook } in if replaced then listen next else next

unfoldable pub handle_channel_select : String → App → App
unfolding select
handle_channel_select id a = select id a

unfoldable pub handle_user_select : String → App → App
unfolding select
handle_user_select user a = select (join "dm_" user) a

unfoldable pub handle_settings_open : App → App
handle_settings_open a = record a { show_settings_window = true }

-- These two only write to the log.
unfoldable pub handle_new_channel : App → App
handle_new_channel a = a

unfoldable pub handle_new_dm : App → App
handle_new_dm a = a

unfoldable pub handle_toggle_sidebar : View → App → App
handle_toggle_sidebar seen a = record a { sidebar_visible = not seen.sidebar_visible }

-- setActiveChannel(channels[index].id), which the callers make within bounds.
abbrev pub select_some : Option ChannelData → App → App
select_some none a = a
select_some (some ch) a = select ch.id a

abbrev pub select_at : ℕ → List ChannelData → App → App
select_at index channels a = select_some (get_elem? channels index) a

unfoldable pub handle_jump_to_channel : ℕ → View → App → App
unfolding select
handle_jump_to_channel index seen a =
    if ltb index (length seen.channels) then select_at index seen.channels a else a

-- ch.id === activeChannel
abbrev pub is_at : Option String → ChannelData → Bool
is_at none ch = false
is_at (some id) ch = str_eq ch.id id

-- channels.findIndex, where `none` is -1.
unfoldable pub find_index : Option String → List ChannelData → Option ℕ
find_index active [] = none
find_index active (ch ∷ chs) =
    let later = find_index active chs in
    if is_at active ch then some 0 else elim later [ none ↦ none | some i ↦ some (suc i) ]

-- The last index of a list that is not empty.
abbrev pub last_index : List ChannelData → ℕ
last_index chs = length chs - 1

-- currentIndex - 1, or the last index in its place.
unfoldable pub previous_index : Option ℕ → List ChannelData → ℕ
previous_index none chs = last_index chs
previous_index (some zero) chs = last_index chs
previous_index (some (suc i)) chs = i

unfoldable pub handle_previous_channel : View → App → App
unfolding select find_index previous_index
handle_previous_channel seen a =
    select_at (previous_index (find_index seen.active_channel seen.channels) seen.channels)
      seen.channels a

-- -1 < length - 1 holds of a list that is not empty.
unfoldable pub next_index : Option ℕ → List ChannelData → ℕ
next_index none chs = 0
next_index (some i) chs = if ltb i (last_index chs) then suc i else 0

unfoldable pub handle_next_channel : View → App → App
unfolding select find_index next_index
handle_next_channel seen a =
    select_at (next_index (find_index seen.active_channel seen.channels) seen.channels)
      seen.channels a

unfoldable pub open_command_palette : App → App
open_command_palette a = record a { command_palette_open = true }

unfoldable pub close_command_palette : App → App
close_command_palette a = record a { command_palette_open = false }

-- The handler of 'keyboard-shortcuts' only writes to the log.
unfoldable pub show_keyboard_shortcuts : App → App
show_keyboard_shortcuts a = a

-- The effect on the channels that shows how many messages are unread.
abbrev pub total_unread : List ChannelData → ℕ
total_unread [] = 0
total_unread (ch ∷ chs) = ch.unread_count + total_unread chs

unfoldable pub show_total : Platform → Shell → App → App × List Effect
unfolding update_dock_badge
show_total platform shell a =
    let (native, effects) =
      update_dock_badge platform (total_unread a.hook.channels) a.native shell in
    if a.native.is_electron then (record a { native = native }, effects) else (a, [])

-- activeChannel as a condition.
abbrev pub has_active : Option String → Bool
has_active none = false
has_active (some id) = not (str_eq id "")

-- The window gets the focus or becomes visible, and a second passes in which nothing else happens.
unfoldable pub attended : Platform → Shell → App → App × List Effect
unfolding clear_dock_badge
attended platform shell a =
    let (native, effects) = clear_dock_badge platform a.native shell in
    if a.native.is_electron && has_active a.hook.active_channel
    then (record a { native = native }, effects)
    else (a, [])

-- `initializeApp`, whether or not its try throws.
unfoldable pub initialize_app : App → App
initialize_app a = record a { app_initialized = true }

-- onSuccess and onError of InviteWindow.
unfoldable pub close_invite_window : App → App
close_invite_window a = record a { show_invite_window = false }

-- onClose of SettingsWindow, which that window never calls.
unfoldable pub close_settings_window : App → App
close_settings_window a = record a { show_settings_window = false }
