-- ===== src/Desktop/Settings.antt =====
-- apps/desktop/src/screens/SettingsWindow.tsx: the window of settings, over its own copy of the hook of
-- Native. `apiEndpoint`, `displayName` and the like are kept but never sent anywhere. The tabs, the
-- version and the markup are left out.
mod Tests
pub mod Saving
pub mod Copies
use agentunited.Prelude.{
  String, Bool, true, false, not, ◌&&◌, Option, none, some, List, [], ◌∷◌, if◌then◌else◌,
}
use agentunited.Desktop.Shell.{AppConfig, Shell, Effect, Platform}
use agentunited.Desktop.Native.{Native, Updates, update_app_config}

pub data Theme : Type 0 where
  dark light system : Theme

pub data FontSize : Type 0 where
  sm md lg : FontSize

pub record SettingsData : Type 0 where
  pub api_endpoint : String
  pub agent_id : String
  pub launch_at_login : Bool
  pub desktop_notifications : Bool
  pub sound_notifications : Bool
  pub dock_badge : Bool
  pub display_name : String
  pub theme : Theme
  pub font_size : FontSize

pub record SettingsWindow : Type 0 where
  pub settings : SettingsData
  pub has_changes : Bool

abbrev pub make : SettingsWindow
make = record {
  settings = record {
    api_endpoint = "http://localhost:8080";
    agent_id = "ag_01H8XZ30A1B2C3D4E5F6G7H8I9";
    launch_at_login = false;
    desktop_notifications = true;
    sound_notifications = true;
    dock_badge = true;
    display_name = "Current User";
    theme = dark;
    font_size = md;
  };
  has_changes = false;
}

abbrev pub taken : AppConfig → SettingsData → SettingsData
taken c d = record d {
  launch_at_login = c.launch_at_login;
  desktop_notifications = c.notifications.enabled;
  sound_notifications = c.notifications.sound;
  dock_badge = c.badge_enabled;
}

abbrev pub take_config : Bool → Option AppConfig → SettingsWindow → SettingsWindow
take_config true (some c) w = record w { settings = taken c w.settings }
take_config _ _ w = w

-- The effect on the configuration that the hook holds.
unfoldable pub config_changed : Native → SettingsWindow → SettingsWindow
config_changed n w = take_config n.is_electron n.app_config w

-- The controls, each with its value.
pub data Setting : Type 0 where
  api_endpoint display_name : String → Setting
  launch_at_login desktop_notifications sound_notifications dock_badge : Bool → Setting
  theme : Theme → Setting
  font_size : FontSize → Setting

abbrev pub set : Setting → SettingsData → SettingsData
set (api_endpoint v) d = record d { api_endpoint = v }
set (display_name v) d = record d { display_name = v }
set (launch_at_login v) d = record d { launch_at_login = v }
set (desktop_notifications v) d = record d { desktop_notifications = v }
set (sound_notifications v) d = record d { sound_notifications = v }
set (dock_badge v) d = record d { dock_badge = v }
set (theme v) d = record d { theme = v }
set (font_size v) d = record d { font_size = v }

unfoldable pub update_setting : Setting → SettingsWindow → SettingsWindow
update_setting value w = record w { settings = set value w.settings; has_changes = true }

-- The box of the sound is disabled while notifications are off.
abbrev pub is_enabled : Setting → SettingsData → Bool
is_enabled (sound_notifications v) d = d.desktop_notifications
is_enabled _ d = true

unfoldable pub reset_to_defaults : SettingsWindow → SettingsWindow
reset_to_defaults w = record w {
  settings = record {
    api_endpoint = "http://localhost:8080";
    agent_id = w.settings.agent_id;
    launch_at_login = false;
    desktop_notifications = true;
    sound_notifications = false;
    dock_badge = true;
    display_name = w.settings.display_name;
    theme = system;
    font_size = md;
  };
  has_changes = true;
}

-- The button Cancel.
unfoldable pub cancel : SettingsWindow → SettingsWindow
cancel w = record w { has_changes = false }

abbrev pub updates_of : SettingsData → Updates
updates_of d = record {
  notifications = some record {
    enabled = d.desktop_notifications;
    sound = d.sound_notifications;
    mentions = true;
    direct_messages = true;
  };
  badge_enabled = some d.dock_badge;
  launch_at_login = some d.launch_at_login;
}

-- saveSettings up to its wait of a second, with the effect on the new configuration. The answer of
-- updateAppConfig is not read.
unfoldable pub begin_save :
    Platform
    → Bool
    → SettingsWindow
    → Native
    → Shell
    → SettingsWindow × Native × Shell × List Effect
unfolding update_app_config config_changed
begin_save platform reached w n shell =
    let (answer, next, written, effects) =
      update_app_config platform reached (updates_of w.settings) n shell in
    if n.is_electron
    then (if answer then config_changed next w else w, next, written, effects)
    else (w, n, shell, [])

-- saveSettings behind its wait.
unfoldable pub end_save : SettingsWindow → SettingsWindow
end_save w = record w { has_changes = false }
