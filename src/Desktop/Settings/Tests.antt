-- ===== src/Desktop/Settings/Tests.antt =====
-- The settings are edited and saved, while the application holds what it read before.
use agentunited.Prelude.{true, false, none, some, List, [], ◌∷◌, ◌≡◌, refl, All}
use agentunited.Desktop.Native.{Native, mounted, load_config, update_app_config, write_config}
use agentunited.Desktop.Shell.{
  AppConfig, Shell, app_config, start, darwin, app_config_set, update_downloaded, show_notification,
}
use agentunited.Desktop.Shell.Notices.{shown}
use agentunited.Desktop.Settings.{
  make, desktop_notifications, begin_save, end_save, cancel, update_setting, reset_to_defaults,
  launch_at_login, dock_badge, config_changed, taken,
}
use agentunited.Desktop.Settings.Saving.{saved_reads_back}
use agentunited.Desktop.Settings.Copies.{
  Desk, Event, opens, edits, saves, ends, notifies, fetches_update, fires, IsUpdate, run, deliver,
  save, run-stays_muted,
}

abbrev muted : AppConfig
muted = record app_config {
  notifications = record { enabled = false; sound = true; mentions = true; direct_messages = true };
}

abbrev desk : Desk
desk = record {
  shell = record start { config = muted };
  app = record { is_electron = true; app_config = some muted; dock_badge_count = 0 };
  window = make;
  native = mounted;
}

abbrev events : List Event
events =
    opens
    ∷ edits (desktop_notifications true)
    ∷ saves true
    ∷ ends
    ∷ notifies none (record { title = "t"; body = "b"; channel_id = none; is_mention = true })
    ∷ fetches_update none
    ∷ fires
    ∷ []

run-stays_muted_example : All IsUpdate (run darwin true events desk).1
run-stays_muted_example = run-stays_muted darwin true muted events desk (refl, refl, tt)

-- The save has turned notifications on for the updater, and not for the application.
updates_only : (run darwin true events desk).1 ≡ update_downloaded ∷ []
unfolding run deliver save shown show_notification
updates_only = refl

turned_on : (run darwin true events desk).0.shell.config.notifications.enabled ≡ true
unfolding run deliver save
turned_on = refl

abbrev held : Native
held = record { is_electron = true; app_config = some muted; dock_badge_count = 0 }

saved_reads_back_example :
    let (saved, next, written, effects) = begin_save darwin true make held start in
    (next.app_config ≡ some written.config)
    × (saved.settings ≡ make.settings)
    × ((config_changed (load_config written held) make).settings
        ≡ taken written.config make.settings)
    × (taken written.config make.settings ≡ make.settings)
saved_reads_back_example = saved_reads_back darwin make make muted 0 start

-- Saving turns mentions on, whatever was set before.
abbrev unmentioned : Shell
unmentioned = record start {
  config = record app_config {
    notifications = record {
      enabled = true;
      sound = true;
      mentions = false;
      direct_messages = false;
    };
  };
}

mentions_saved :
    let (saved, next, written, effects) = begin_save darwin true make held unmentioned in
    written.config.notifications.mentions ≡ true
unfolding begin_save update_app_config write_config app_config_set
mentions_saved = refl

-- A save that does not reach the main process ends like one that does.
failed_save :
    let (saved, next, written, effects) =
      begin_save darwin false (update_setting (launch_at_login true) make) held start in
    ((end_save saved).has_changes ≡ false)
    × (written.config.launch_at_login ≡ false)
    × (saved.settings.launch_at_login ≡ true)
unfolding begin_save end_save update_setting update_app_config write_config app_config_set
failed_save = (refl, refl, refl)

-- Cancelling keeps what was edited.
cancelled : (cancel (update_setting (dock_badge false) make)).settings.dock_badge ≡ false
unfolding cancel update_setting
cancelled = refl

reset : (reset_to_defaults make).settings.sound_notifications ≡ false
unfolding reset_to_defaults
reset = refl
