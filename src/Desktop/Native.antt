-- ===== src/Desktop/Native.antt =====
-- apps/desktop/src/hooks/useNativeIntegration.ts with apps/desktop/src/preload.ts: what a screen asks
-- of the main process. Every component that calls the hook has a state and a dictionary of callbacks
-- of its own. A call of window.electronAPI is a call of the handler of Shell that preload.ts names; it
-- throws where `reached` is false. The flag isElectron is set by the first effect.
mod Tests
use agentunited.Prelude.{
  ℕ, zero, suc, String, Bool, true, false, not, ◌&&◌, ◌||◌, Option, none, some, List, [], ◌∷◌,
  is_some, if◌then◌else◌,
}
use agentunited.Prelude.Dict.{Dict, lookup, insert, delete}
use agentunited.Prelude.Text.{strip_prefix}
use agentunited.Desktop.Shell.{
  AppConfig, Notifications, Notice, Shell, Effect, Window, Platform, app_config_set, dock_badge_set,
  dock_badge_clear, window_minimize, window_close, window_maximize, quit,
}

pub record Native : Type 0 where
  pub is_electron : Bool
  pub app_config : Option AppConfig
  pub dock_badge_count : ℕ

abbrev pub mounted : Native
mounted = record { is_electron = false; app_config = none; dock_badge_count = 0 }

-- The first effect; `has_api` is !!window.electronAPI.
unfoldable pub detect : Bool → Native → Native
detect has_api n = record n { is_electron = has_api }

-- The second effect, where the main process answers with its configuration.
unfoldable pub load_config : Shell → Native → Native
load_config shell n = if n.is_electron then record n { app_config = some shell.config } else n

-- The listener of menu actions: the callback that is called, or `none` for the warning.
unfoldable pub handle_menu_action {ℓ} : {C : Type ℓ} → Dict C → String → Option C
handle_menu_action callbacks action = lookup action callbacks

unfoldable pub register_menu_action {ℓ} : {C : Type ℓ} → String → C → Dict C → Dict C
register_menu_action action callback callbacks = insert action callback callbacks

unfoldable pub unregister_menu_action {ℓ} : {C : Type ℓ} → String → Dict C → Dict C
unregister_menu_action action callbacks = delete action callbacks

-- What updateAppConfig asks the main process to replace.
pub record Updates : Type 0 where
  pub notifications : Option Notifications
  pub badge_enabled : Option Bool
  pub launch_at_login : Option Bool

-- updateAppConfig behind its early return.
unfoldable pub write_config :
    Platform → Bool → Updates → Native → Shell → Bool × Native × Shell × List Effect
unfolding app_config_set
write_config platform reached u n shell =
    let (next, effects) =
      app_config_set platform u.notifications u.badge_enabled u.launch_at_login shell in
    if reached
    then (true, record n { app_config = some next.config }, next, effects)
    else (false, n, shell, [])

-- The answer, and the states of the component and of the main process.
unfoldable pub update_app_config :
    Platform → Bool → Updates → Native → Shell → Bool × Native × Shell × List Effect
unfolding write_config
update_app_config platform reached u n shell =
    if not n.is_electron || not (is_some n.app_config)
    then (false, n, shell, [])
    else write_config platform reached u n shell

abbrev pub is_dm : Option String → Bool
unfolding strip_prefix
is_dm none = false
is_dm (some id) = is_some (strip_prefix "dm_" id)

-- appConfig?.notifications.enabled and the tests of the kind of the notification.
abbrev pub allows : Option AppConfig → Notice → Bool
allows none n = false
allows (some c) n =
    c.notifications.enabled
    && not (n.is_mention && not c.notifications.mentions)
    && not (is_dm n.channel_id && not c.notifications.direct_messages)

-- The notification that the main process is asked to show.
unfoldable pub show_notification : Notice → Native → Option Notice
show_notification notice n =
    if n.is_electron && allows n.app_config notice then some notice else none

abbrev pub badge_enabled : Option AppConfig → Bool
badge_enabled none = false
badge_enabled (some c) = c.badge_enabled

abbrev pub set_or_clear : Platform → ℕ → Shell → List Effect
set_or_clear platform zero shell = dock_badge_clear platform
set_or_clear platform (suc count) shell = dock_badge_set platform (suc count) shell

unfoldable pub update_dock_badge : Platform → ℕ → Native → Shell → Native × List Effect
unfolding dock_badge_set dock_badge_clear
update_dock_badge platform count n shell =
    if not n.is_electron || not (badge_enabled n.app_config)
    then (n, [])
    else (record n { dock_badge_count = count }, set_or_clear platform count shell)

unfoldable pub clear_dock_badge : Platform → Native → Shell → Native × List Effect
unfolding update_dock_badge
clear_dock_badge platform n shell = update_dock_badge platform 0 n shell

-- The main process always answers 'granted'.
unfoldable pub request_notification_permission : Bool → Native → Bool
request_notification_permission reached n = n.is_electron && reached

-- `version` is what app.getVersion() says, `none` where the call throws.
unfoldable pub get_app_version : Option String → Native → Option String
get_app_version version n = if n.is_electron then version else none

unfoldable pub minimize_window : Option Window → Native → List Effect
unfolding window_minimize
minimize_window window n = if n.is_electron then window_minimize window else []

unfoldable pub close_window : Option Window → Native → List Effect
unfolding window_close
close_window window n = if n.is_electron then window_close window else []

unfoldable pub maximize_window : Option Window → Native → List Effect
unfolding window_maximize
maximize_window window n = if n.is_electron then window_maximize window else []

unfoldable pub quit_app : Native → List Effect
quit_app n = if n.is_electron then quit ∷ [] else []
