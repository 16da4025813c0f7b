-- ===== src/Desktop/Shell.antt =====
-- apps/desktop/src/main.ts: the main process of the desktop application, with its configuration,
-- its queue of notifications and the handlers of links, of the badge and of the window. What Electron
-- says of the window is a record of readings, `none` where `mainWindow` is null; the calls of Electron
-- are effects, in order. Left out are the creation of the window and the calls of the updater.
pub mod Notices
pub mod Links
pub mod Menus
mod Tests
use agentunited.Prelude.{
  ℕ, suc, zero, String, Bool, true, false, not, ◌&&◌, ◌||◌, Option, none, some, List, [], ◌∷◌, ◌++◌,
  is_some, find, if◌then◌else◌,
}
use agentunited.Prelude.Text.{strip_prefix}

pub data Platform : Type 0 where
  darwin win32 linux : Platform

abbrev pub is_darwin : Platform → Bool
is_darwin darwin = true
is_darwin _ = false

pub record Window : Type 0 where
  pub is_minimized : Bool
  pub is_focused : Bool
  pub is_maximized : Bool

pub record Notifications : Type 0 where
  pub enabled : Bool
  pub sound : Bool
  pub mentions : Bool
  pub direct_messages : Bool

pub record AppConfig : Type 0 where
  pub notifications : Notifications
  pub badge_enabled : Bool
  pub launch_at_login : Bool

abbrev pub app_config : AppConfig
app_config = record {
  notifications = record { enabled = true; sound = true; mentions = true; direct_messages = true };
  badge_enabled = true;
  launch_at_login = false;
}

-- `channel_id` and `is_mention` are of the optional data, where a missing or empty one is falsy.
pub record Notice : Type 0 where
  pub title : String
  pub body : String
  pub channel_id : Option String
  pub is_mention : Bool

-- `timers` counts the calls of setTimeout that wait to fire.
pub record Shell : Type 0 where
  pub config : AppConfig
  pub queue : List Notice
  pub is_processing : Bool
  pub timers : ℕ

abbrev pub start : Shell
start = record { config = app_config; queue = []; is_processing = false; timers = 0 }

pub data Effect : Type 0 where
  show_notice : Notice → Bool → Effect
  bounce : Effect
  set_login_item : Bool → Effect
  set_badge : ℕ → Effect
  restore show_window focus minimize maximize unmaximize close quit create_window : Effect
  send : String → String → Effect

-- The queue's first notification is taken and shown, if there is one.
unfoldable pub shift : List Notice → Platform → Shell → Shell × List Effect
shift [] platform s = (record s { is_processing = false }, [])
shift (n ∷ rest) platform s = (
  record s { queue = rest; is_processing = true; timers = suc s.timers },
  show_notice n (not s.config.notifications.sound)
      ∷ (if is_darwin platform && n.is_mention then bounce ∷ [] else []),
)

unfoldable pub process_notification_queue : Platform → Shell → Shell × List Effect
unfolding shift
process_notification_queue platform s = shift s.queue platform s

-- The timer's callback, where one of the timers waits.
unfoldable pub fire : ℕ → Platform → Shell → Shell × List Effect
unfolding process_notification_queue
fire zero platform s = (s, [])
fire (suc waiting) platform s = process_notification_queue platform (record s { timers = waiting })

unfoldable pub timer_fired : Platform → Shell → Shell × List Effect
unfolding fire
timer_fired platform s = fire s.timers platform s

abbrev pub is_active : Option Window → Bool
is_active none = false
is_active (some w) = w.is_focused

-- The part of showNotification behind its two early returns.
unfoldable pub enqueue : Platform → Notice → Shell → Shell × List Effect
unfolding process_notification_queue
enqueue platform n s =
    let queued = record s { queue = s.queue ++ n ∷ [] } in
    if s.is_processing then (queued, []) else process_notification_queue platform queued

-- `supported` is Notification.isSupported().
unfoldable pub show_notification :
    Platform → Bool → Option Window → Notice → Shell → Shell × List Effect
unfolding enqueue
show_notification platform supported window n s =
    if not s.config.notifications.enabled || not supported
    then (s, [])
    else if is_active window
    then (s, [])
    else enqueue platform n s

-- What the events of autoUpdater notify of.
abbrev pub update_available : Notice
update_available = record {
  title = "Update Available";
  body = "A new version of Agent United is ready to download.";
  channel_id = none;
  is_mention = false;
}

abbrev pub update_downloaded : Notice
update_downloaded = record {
  title = "Update Ready";
  body = "Agent United will restart to apply the update.";
  channel_id = none;
  is_mention = false;
}

abbrev pub raise : Window → List Effect
raise w = if w.is_minimized then restore ∷ [] else []

-- The listener of a click on a notification.
unfoldable pub notice_clicked : Option Window → Notice → List Effect
notice_clicked none n = []
notice_clicked (some w) n =
    raise w
    ++ show_window
      ∷ focus
      ∷ elim n.channel_id [ none ↦ [] | some id ↦ send "navigate-to-channel" id ∷ [] ]

-- Object.assign replaces the parts that the given object has.
unfoldable pub app_config_set :
    Platform → Option Notifications → Option Bool → Option Bool → Shell → Shell × List Effect
app_config_set platform notifications badge login s =
    let next : AppConfig = record {
      notifications = elim notifications [ none ↦ s.config.notifications | some n ↦ n ];
      badge_enabled = elim badge [ none ↦ s.config.badge_enabled | some b ↦ b ];
      launch_at_login = elim login [ none ↦ s.config.launch_at_login | some b ↦ b ];
    } in
    (
      record s { config = next },
      if is_darwin platform then set_login_item next.launch_at_login ∷ [] else [],
    )

unfoldable pub dock_badge_set : Platform → ℕ → Shell → List Effect
dock_badge_set platform count s =
    if is_darwin platform && s.config.badge_enabled then set_badge count ∷ [] else []

unfoldable pub dock_badge_clear : Platform → List Effect
dock_badge_clear platform = if is_darwin platform then set_badge 0 ∷ [] else []

-- The window's listener of focus.
unfoldable pub window_focused : Platform → Shell → List Effect
unfolding dock_badge_set
window_focused platform s = dock_badge_set platform 0 s

unfoldable pub handle_deep_link : Option Window → String → List Effect
handle_deep_link none url = []
handle_deep_link (some w) url = raise w ++ focus ∷ send "deep-link" url ∷ []

abbrev pub is_link : String → Bool
unfolding strip_prefix
is_link arg = is_some (strip_prefix "agentunited://" arg)

abbrev pub refocus : Option Window → List Effect
refocus none = []
refocus (some w) = raise w ++ focus ∷ []

-- A second instance was started, with or without a link: `later` is what Electron says of the
-- window behind the link.
unfoldable pub follow : Option Window → Option Window → Option String → List Effect
unfolding handle_deep_link
follow window later none = refocus later
follow window later (some url) = handle_deep_link window url ++ refocus later

unfoldable pub second_instance : Option Window → Option Window → List String → List Effect
unfolding follow
second_instance window later args = follow window later (find is_link args)

unfoldable pub window_minimize : Option Window → List Effect
window_minimize none = []
window_minimize (some w) = minimize ∷ []

unfoldable pub window_close : Option Window → List Effect
window_close none = []
window_close (some w) = close ∷ []

-- mainWindow?.maximize()
unfoldable pub window_maximize : Option Window → List Effect
window_maximize none = []
window_maximize (some w) = if w.is_maximized then unmaximize ∷ [] else maximize ∷ []

-- `count` is how many windows there are.
unfoldable pub activate : ℕ → Option Window → List Effect
activate zero window = create_window ∷ []
activate (suc count) none = []
activate (suc count) (some w) = show_window ∷ []

unfoldable pub window_all_closed : Platform → List Effect
window_all_closed platform = if is_darwin platform then [] else quit ∷ []
