-- ===== src/Desktop/App/Shortcuts.antt =====
-- The keys that the application listens to, against the items of its menu.
use agentunited.Prelude.{
  ℕ, zero, suc, String, Bool, true, false, not, Option, none, some, List, [], ◌∷◌, All, ◌≡◌, refl,
  ap, ◌∙◌,
}
use agentunited.Prelude.Dict.{lookup, insert}
use agentunited.Desktop.Hook.{Hook}
use agentunited.Desktop.Native.{Native, handle_menu_action, register_menu_action}
use agentunited.Desktop.App.{
  App, View, view_of, make, handle_settings_open, handle_new_channel, handle_new_dm,
  open_command_palette, handle_toggle_sidebar, handle_previous_channel, handle_next_channel,
  show_keyboard_shortcuts, handle_jump_to_channel,
}
use agentunited.Desktop.App.Keys.{
  KeyEvent, handle_global_key_down, shortcuts, obey, parse_int, menu_action, reach, hooks, actions,
  own_dict, answer, jump,
}
use agentunited.Desktop.App.Fresh.{Event, run, IsNamed, IsFresh, AreNamed, run-IsFresh}

abbrev pub command : String → KeyEvent
command key = record { meta_key = true; ctrl_key = false; shift_key = false; key = key }

abbrev pub shift_command : String → KeyEvent
shift_command key = record { meta_key = true; ctrl_key = false; shift_key = true; key = key }

-- The items of the menu whose handlers change the state, with the keys of their accelerators; the item
-- that toggles the sidebar stands apart.
abbrev pub accelerated : List (String × Option ℕ × KeyEvent)
accelerated =
    ("preferences", none, command ",")
    ∷ ("command-palette", none, command "k")
    ∷ ("previous-channel", none, command "[")
    ∷ ("next-channel", none, command "]")
    ∷ ("jump-to-channel", some 0, command "1")
    ∷ ("jump-to-channel", some 1, command "2")
    ∷ ("jump-to-channel", some 2, command "3")
    ∷ ("jump-to-channel", some 3, command "4")
    ∷ ("jump-to-channel", some 4, command "5")
    ∷ []

-- What the listener reads, where only the sidebar may be out of date.
abbrev seen_by : App → View
seen_by a = record (view_of a) { sidebar_visible = a.listening.sidebar_visible }

listening-IsFresh : (a : App) → IsFresh a → a.listening ≡ seen_by a
listening-IsFresh a (chans, active, named) = λ i. record {
  channels = chans i;
  active_channel = active i;
  sidebar_visible = a.listening.sidebar_visible;
}

-- The key does what the item of the menu does.
abbrev pub Agrees : App → String × Option ℕ × KeyEvent → Type 0
Agrees a s = handle_global_key_down s.2 a ≡ menu_action s.0 s.1 a

obeyed-IsFresh :
    (e : KeyEvent) (a : App)
    → IsFresh a
    → handle_global_key_down e a ≡ obey (shortcuts e (seen_by a)) a
unfolding handle_global_key_down
obeyed-IsFresh e a fresh = ap (λ v. obey (shortcuts e v) a) (listening-IsFresh a fresh)

agree-IsFresh : (a : App) → IsFresh a → All (Agrees a) accelerated
unfolding obey shortcuts parse_int menu_action reach hooks actions own_dict answer jump lookup
    insert handle_menu_action register_menu_action handle_settings_open handle_new_channel
    handle_new_dm open_command_palette handle_previous_channel handle_next_channel
    show_keyboard_shortcuts handle_jump_to_channel
agree-IsFresh a fresh =
    let by : (e : KeyEvent) → handle_global_key_down e a ≡ obey (shortcuts e (seen_by a)) a =
      λ e. obeyed-IsFresh e a fresh in
    (
      by (command ","),
      (
        by (command "k"),
        (
          by (command "["),
          (
            by (command "]"),
            (
              by (command "1"),
              (by (command "2"), (by (command "3"), (by (command "4"), (by (command "5"), tt)))),
            ),
          ),
        ),
      ),
    )

-- Toggling the sidebar k times with Cmd+Shift+S, and with the menu.
unfoldable pub press_times : ℕ → App → App
press_times zero a = a
press_times (suc k) a = press_times k (handle_global_key_down (shift_command "S") a)

unfoldable pub click_times : ℕ → App → App
click_times zero a = a
click_times (suc k) a = click_times k (menu_action "toggle-sidebar" none a)

abbrev pub flip_times : ℕ → Bool → Bool
flip_times zero b = b
flip_times (suc k) b = flip_times k (not b)

press_once :
    (a : App)
    → let b = handle_global_key_down (shift_command "S") a in
      (b.sidebar_visible ≡ not a.listening.sidebar_visible) × (b.listening ≡ a.listening)
unfolding handle_global_key_down obey shortcuts parse_int handle_toggle_sidebar
press_once a = (refl, refl)

press_times-sidebar :
    (k : ℕ) (a : App) → (press_times (suc k) a).sidebar_visible ≡ not a.listening.sidebar_visible
unfolding press_times
press_times-sidebar zero a = (press_once a).0
press_times-sidebar (suc k) a =
    let b = handle_global_key_down (shift_command "S") a in
    press_times-sidebar k b ∙ ap (λ (v : View). not v.sidebar_visible) (press_once a).1

click_once :
    (a : App) → (menu_action "toggle-sidebar" none a).sidebar_visible ≡ not a.sidebar_visible
unfolding menu_action reach hooks actions own_dict answer jump lookup insert handle_menu_action
    register_menu_action handle_toggle_sidebar
click_once a = refl

-- The key of the sidebar leaves it the opposite of what the listener has read, the item of the menu
-- the opposite of what is shown.
abbrev pub TogglesApart : App → Type 0
TogglesApart a =
    ((handle_global_key_down (shift_command "S") a).sidebar_visible
      ≡ not a.listening.sidebar_visible)
    × ((menu_action "toggle-sidebar" none a).sidebar_visible ≡ not a.sidebar_visible)

-- Behind any keys, clicks, choices and changes of the hook, with ids of channels that are not empty,
-- the keys that open the settings and the palette, that go to the previous and the next channel and
-- to one of the first five do what their items of the menu do. The key that toggles the sidebar does
-- not: it leaves the sidebar the opposite of what the listener of keys has read, the item the
-- opposite of what is shown.
pub run-Agrees :
    (es : List Event) (hook : Hook) (native : Native)
    → AreNamed hook.channels
    → All IsNamed es
    → All (Agrees (run es (make hook native))) accelerated
      × TogglesApart (run es (make hook native))
run-Agrees es hook native named fit =
    let a = run es (make hook native) in
    (
      agree-IsFresh a (run-IsFresh es fit (make hook native) (refl, refl, named)),
      ((press_once a).0, click_once a),
    )

click_times-sidebar :
    (k : ℕ) (a : App) → (click_times k a).sidebar_visible ≡ flip_times k a.sidebar_visible
unfolding click_times menu_action reach hooks actions own_dict answer jump lookup insert
    handle_menu_action register_menu_action handle_toggle_sidebar
click_times-sidebar zero a = refl
click_times-sidebar (suc k) a = click_times-sidebar k (menu_action "toggle-sidebar" none a)

-- However often Cmd+Shift+S is pressed with nothing in between, the sidebar stays as the first press
-- left it, the opposite of what the listener has read; the item of the menu toggles it each time.
pub sidebar_sticks :
    (k : ℕ) (a : App)
    → ((press_times (suc k) a).sidebar_visible ≡ not a.listening.sidebar_visible)
      × ((click_times k a).sidebar_visible ≡ flip_times k a.sidebar_visible)
sidebar_sticks k a = (press_times-sidebar k a, click_times-sidebar k a)
