-- ===== src/Desktop/App/Keys.antt =====
-- apps/desktop/src/App.tsx: how menu actions and keys reach the handlers. Every useMenuAction has a hook
-- of its own, whose listener gets every action and calls what its own dictionary holds.
use Prim.Native.Char.{code}
use Prim.Native.String.{◌∷◌, []}
use agentunited.Prelude.{
  ℕ, ◌+◌, ◌*◌, ◌-◌, String, Bool, false, ◌&&◌, ◌||◌, Option, none, some, List, ltb, leb, str_eq,
  if◌then◌else◌, map,
}
use mathlib.Core.List.{[], ◌∷◌}
use agentunited.Prelude.Dict.{Dict}
use agentunited.Desktop.Native.{handle_menu_action, register_menu_action}
use agentunited.Desktop.App.{
  App, View, view_of, handle_settings_open, handle_new_channel, handle_new_dm, open_command_palette,
  handle_toggle_sidebar, handle_previous_channel, handle_next_channel, show_keyboard_shortcuts,
  handle_jump_to_channel,
}

abbrev pub Callback : Type 0
Callback = Option ℕ → View → App → App

-- `undefined < channels.length` is false.
unfoldable pub jump : Callback
unfolding handle_jump_to_channel
jump none seen a = a
jump (some index) seen a = handle_jump_to_channel index seen a

unfoldable pub actions : List (String × Callback)
unfolding handle_settings_open handle_new_channel handle_new_dm open_command_palette
    handle_toggle_sidebar handle_previous_channel handle_next_channel show_keyboard_shortcuts jump
actions =
    ("preferences", λ index seen a. handle_settings_open a)
    ∷ ("new-channel", λ index seen a. handle_new_channel a)
    ∷ ("new-dm", λ index seen a. handle_new_dm a)
    ∷ ("command-palette", λ index seen a. open_command_palette a)
    ∷ ("toggle-sidebar", λ index seen a. handle_toggle_sidebar seen a)
    ∷ ("jump-to-channel", jump)
    ∷ ("previous-channel", λ index seen a. handle_previous_channel seen a)
    ∷ ("next-channel", λ index seen a. handle_next_channel seen a)
    ∷ ("keyboard-shortcuts", λ index seen a. show_keyboard_shortcuts a)
    ∷ []

-- The dictionaries behind the calls of useMenuAction, and that of the component itself, which
-- registers nothing.
unfoldable pub own_dict : String × Callback → Dict Callback
unfolding register_menu_action
own_dict (name, callback) = register_menu_action name callback []

unfoldable pub hooks : List (Dict Callback)
unfolding own_dict actions jump
hooks = [] ∷ map own_dict actions

-- One listener, with the callbacks of the present render; the warning is left out.
unfoldable pub answer : Option Callback → Option ℕ → App → App
answer none index a = a
answer (some callback) index a = callback index (view_of a) a

-- An action reaches all listeners, one after the other.
unfoldable pub reach : List (Dict Callback) → String → Option ℕ → App → App
unfolding handle_menu_action answer
reach [] name index a = a
reach (callbacks ∷ rest) name index a =
    reach rest name index (answer (handle_menu_action callbacks name) index a)

unfoldable pub menu_action : String → Option ℕ → App → App
unfolding reach hooks
menu_action name index a = reach hooks name index a

pub record KeyEvent : Type 0 where
  pub meta_key : Bool
  pub ctrl_key : Bool
  pub shift_key : Bool
  pub key : String

-- The decimal digits at the start of a text, as parseInt reads them.
unfoldable pub parse_int : ℕ → String → ℕ
parse_int value [] = value
parse_int value (c ∷ s) =
    let longer = parse_int (10 * value + (code c - b'0')) s in
    if leb b'0' (code c) && leb (code c) b'9' then longer else value

-- key >= '1' && key <= '9', by the order of texts.
abbrev pub is_index : String → Bool
is_index [] = false
is_index (c ∷ []) = leb b'1' (code c) && leb (code c) b'9'
is_index (c ∷ d ∷ s) = leb b'1' (code c) && ltb (code c) b'9'

-- A test of the listener, and what follows where it holds.
abbrev pub Shortcut : Type 0
Shortcut = Bool × (App → App)

unfoldable pub shortcuts : KeyEvent → View → List Shortcut
unfolding handle_settings_open handle_new_channel handle_new_dm open_command_palette
    handle_toggle_sidebar handle_previous_channel handle_next_channel show_keyboard_shortcuts
    handle_jump_to_channel parse_int
shortcuts e seen =
    let held = e.meta_key || e.ctrl_key in
    (held && str_eq e.key "k", open_command_palette)
    ∷ (held && str_eq e.key ",", handle_settings_open)
    ∷ (held && e.shift_key && str_eq e.key "N", handle_new_channel)
    ∷ (held && e.shift_key && str_eq e.key "D", handle_new_dm)
    ∷ (held && e.shift_key && str_eq e.key "S", handle_toggle_sidebar seen)
    ∷ (held && str_eq e.key "[", handle_previous_channel seen)
    ∷ (held && str_eq e.key "]", handle_next_channel seen)
    ∷ (held && is_index e.key, handle_jump_to_channel (parse_int 0 e.key - 1) seen)
    ∷ (held && str_eq e.key "/", show_keyboard_shortcuts)
    ∷ []

-- The tests are made one after the other.
unfoldable pub obey : List Shortcut → App → App
obey [] a = a
obey ((test, act) ∷ rest) a = obey rest (if test then act a else a)

-- The listener reads the render that set it.
unfoldable pub handle_global_key_down : KeyEvent → App → App
unfolding obey shortcuts
handle_global_key_down e a = obey (shortcuts e a.listening) a
