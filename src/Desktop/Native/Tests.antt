-- ===== src/Desktop/Native/Tests.antt =====
-- What the hook answers inside the application and in a browser.
use agentunited.Prelude.{true, false, none, some, [], ◌∷◌, ◌≡◌, refl}
use agentunited.Prelude.Dict.{lookup, insert, delete}
use agentunited.Desktop.Shell.{
  start, app_config, darwin, set_badge, quit, window_minimize, dock_badge_set, dock_badge_clear,
}
use agentunited.Desktop.Native.{
  Native, mounted, detect, load_config, handle_menu_action, register_menu_action,
  unregister_menu_action, update_dock_badge, clear_dock_badge, request_notification_permission,
  get_app_version, minimize_window, quit_app,
}

abbrev inside : Native
inside = record { is_electron = true; app_config = some app_config; dock_badge_count = 0 }

loaded : load_config start (detect true mounted) ≡ inside
unfolding load_config detect
loaded = refl

in_browser : load_config start (detect false mounted) ≡ mounted
unfolding load_config detect
in_browser = refl

registered :
    (handle_menu_action (register_menu_action "a" true []) "a" ≡ some true)
    × (handle_menu_action (unregister_menu_action "a" (register_menu_action "a" true [])) "a"
        ≡ none)
unfolding handle_menu_action register_menu_action unregister_menu_action lookup insert delete
registered = (refl, refl)

badges :
    (update_dock_badge darwin 3 inside start
      ≡ (record inside { dock_badge_count = 3 }, set_badge 3 ∷ []))
    × (clear_dock_badge darwin inside start ≡ (inside, set_badge 0 ∷ []))
unfolding update_dock_badge clear_dock_badge dock_badge_set dock_badge_clear
badges = (refl, refl)

answers :
    (request_notification_permission true mounted ≡ false)
    × (get_app_version (some "1.0.0") inside ≡ some "1.0.0")
    × (minimize_window none inside ≡ [])
    × (quit_app inside ≡ quit ∷ [])
unfolding request_notification_permission get_app_version minimize_window window_minimize quit_app
answers = (refl, refl, refl, refl)
