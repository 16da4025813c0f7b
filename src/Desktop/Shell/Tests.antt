-- ===== src/Desktop/Shell/Tests.antt =====
-- Two notifications and a link, on macOS.
use agentunited.Prelude.{String, true, false, none, some, List, [], ◌∷◌, ◌++◌, ◌≡◌, refl, inr}
use agentunited.Desktop.Shell.{
  Shell, start, Notice, Window, darwin, restore, focus, send, show_window, unmaximize,
  create_window, quit, set_badge, linux, set_login_item, notice_clicked, window_maximize,
  window_minimize, minimize, window_close, close, activate, window_all_closed, window_focused,
  dock_badge_clear, app_config_set,
}
use agentunited.Desktop.Shell.Notices.{
  Event, notifies, fires, run, run-shown, IsPaced, fire_times, fire_times_drains,
}

abbrev away : Window
away = record { is_minimized = true; is_focused = false; is_maximized = false }

abbrev active : Window
active = record { is_minimized = false; is_focused = true; is_maximized = true }

abbrev note : String → Notice
note title = record { title = title; body = "b"; channel_id = some "c1"; is_mention = true }

abbrev waiting : Shell
waiting = record start { queue = note "a" ∷ note "b" ∷ []; is_processing = true; timers = 1 }

abbrev arrives : List Event
arrives =
    notifies (some away) (note "a")
    ∷ notifies none (note "b")
    ∷ notifies (some active) (note "c")
    ∷ fires
    ∷ []

clicked :
    notice_clicked (some away) (note "a")
    ≡ restore ∷ show_window ∷ focus ∷ send "navigate-to-channel" "c1" ∷ []
unfolding notice_clicked
clicked = refl

maximized : window_maximize (some active) ≡ unmaximize ∷ []
unfolding window_maximize
maximized = refl

minimized : window_minimize (some active) ≡ minimize ∷ []
unfolding window_minimize
minimized = refl

closed : window_close (some active) ≡ close ∷ []
unfolding window_close
closed = refl

activated : activate 0 none ≡ create_window ∷ []
unfolding activate
activated = refl

left : window_all_closed linux ≡ quit ∷ []
unfolding window_all_closed
left = refl

focused : window_focused darwin start ≡ set_badge 0 ∷ []
unfolding window_focused
focused = refl

unbadged : dock_badge_clear darwin ≡ set_badge 0 ∷ []
unfolding dock_badge_clear
unbadged = refl

configured : (app_config_set darwin none none (some true) start).1 ≡ set_login_item true ∷ []
unfolding app_config_set
configured = refl

run-shown_example :
    IsPaced darwin true (run darwin true arrives start).0
    × ((run darwin true arrives start).1 ++ (run darwin true arrives start).0.queue
        ≡ start.queue ++ (run darwin true arrives start).2)
run-shown_example = run-shown darwin true arrives start (inr (refl, refl, refl))

fire_times_drains_example :
    ((fire_times darwin true 3 waiting).1 ≡ note "a" ∷ note "b" ∷ [])
    × ((fire_times darwin true 3 waiting).0.queue ≡ [])
    × ((fire_times darwin true 3 waiting).0.is_processing ≡ false)
    × ((fire_times darwin true 3 waiting).0.timers ≡ 0)
fire_times_drains_example =
    fire_times_drains darwin true (note "a" ∷ note "b" ∷ []) waiting refl refl
