-- ===== src/Desktop/Settings/Saving.antt =====
-- What saving the settings writes, and what it leaves.
use agentunited.Prelude.{ℕ, true, some, ◌≡◌, refl}
use agentunited.Desktop.Shell.{AppConfig, Shell, Platform, app_config_set}
use agentunited.Desktop.Native.{Native, update_app_config, write_config, load_config}
use agentunited.Desktop.Settings.{SettingsWindow, begin_save, taken, config_changed}

-- In the application, where the hook has loaded the configuration `c` and the main process is reached,
-- a save leaves the main process, the hook and the settings with one configuration, and a window
-- that is opened later shows the settings that were saved: launch at login, notifications, sound
-- and badge.
pub saved_reads_back :
    (platform : Platform) (w later : SettingsWindow) (c : AppConfig) (count : ℕ) (shell : Shell)
    → let n : Native = record {
      is_electron = true;
      app_config = some c;
      dock_badge_count = count;
    } in
      let (saved, next, written, effects) = begin_save platform true w n shell in
      (next.app_config ≡ some written.config)
      × (saved.settings ≡ w.settings)
      × ((config_changed (load_config written n) later).settings
          ≡ taken written.config later.settings)
      × (taken written.config later.settings ≡ record later.settings {
        launch_at_login = w.settings.launch_at_login;
        desktop_notifications = w.settings.desktop_notifications;
        sound_notifications = w.settings.sound_notifications;
        dock_badge = w.settings.dock_badge;
      })
unfolding begin_save update_app_config write_config app_config_set config_changed load_config
saved_reads_back platform w later c count shell = (refl, refl, refl, refl)
