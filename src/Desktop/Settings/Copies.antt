-- ===== src/Desktop/Settings/Copies.antt =====
-- The application and the window of settings hold a hook each, and with it a copy of the configuration
-- each: a save replaces that of the window and of the main process.
use agentunited.Prelude.{
  ℕ, zero, suc, Bool, true, false, not, ◌&&◌, ◌||◌, Option, none, some, is_some, List, [], ◌∷◌,
  ◌++◌, if◌then◌else◌, if-either, ◌≡◌, refl, ap, arith, ◌∙◌, sym, subst, All, All-append, ◌⊎◌, inl,
  inr,
}
use agentunited.Desktop.Shell.{
  is_darwin, AppConfig, Notice, Shell, Effect, Window, Platform, app_config_set, timer_fired, fire,
  shift, show_notification as show, process_notification_queue, set_login_item, enqueue, bounce,
  is_active, update_available, update_downloaded,
}
use agentunited.Desktop.Shell.Notices.{shown}
use agentunited.Desktop.Native.{
  Updates, Native, mounted, detect, load_config, show_notification, update_app_config, write_config,
  allows, is_dm,
}
use agentunited.Desktop.Settings.{
  SettingsWindow, Setting, make, config_changed, update_setting, is_enabled, reset_to_defaults,
  cancel, begin_save, end_save, updates_of,
}

-- The main process, the application's copy, and the window of settings with its copy.
pub record Desk : Type 0 where
  pub shell : Shell
  pub app : Native
  pub window : SettingsWindow
  pub native : Native

pub data Event : Type 0 where
  -- The window is mounted anew; its effects read the configuration of the main process.
  opens : Event
  edits : Setting → Event
  resets cancels : Event
  -- A save, with whether the main process is reached, and the end of its wait.
  saves : Bool → Event
  ends : Event
  -- The application notifies, with what Electron says of its window.
  notifies : Option Window → Notice → Event
  -- The updater found or fetched a version, of which the main process notifies by itself.
  finds_update fetches_update : Option Window → Event
  fires : Event

absurd_true : (b test : Bool) {A : Type 0} → b && test ≡ true → test ≡ false → A
absurd_true true true e f = ground arith
absurd_true true false e f = ground arith
absurd_true false test e f = ground arith

-- A notification of the updater.
abbrev pub IsUpdate : Notice → Type 0
IsUpdate n = (n ≡ update_available) ⊎ (n ≡ update_downloaded)

module _ (platform : Platform) (supported : Bool) where
  -- What the main process does with the notification that the application's hook lets through.
  unfoldable pub deliver : Option Window → Option Notice → Shell → Shell × List Effect
  unfolding show
  deliver window none s = (s, [])
  deliver window (some n) s = show platform supported window n s

  abbrev edit : Setting → SettingsWindow → SettingsWindow
  edit v w = if is_enabled v w.settings then update_setting v w else w

  unfoldable pub save : Bool → Desk → Desk × List Effect
  unfolding begin_save
  save reached d =
      let (window, native, shell, effects) =
        begin_save platform reached d.window d.native d.shell in
      (record d { shell = shell; window = window; native = native }, effects)

  unfoldable pub step : Event → Desk → Desk × List Effect
  unfolding load_config detect config_changed reset_to_defaults cancel end_save show_notification
      timer_fired update_setting
  step opens d =
      let native = load_config d.shell (detect true mounted) in
      (record d { window = config_changed native make; native = native }, [])
  step (edits v) d = (record d { window = edit v d.window }, [])
  step resets d = (record d { window = reset_to_defaults d.window }, [])
  step cancels d = (record d { window = cancel d.window }, [])
  step (saves reached) d = save reached d
  step ends d = (record d { window = end_save d.window }, [])
  step (notifies window n) d =
      let result = deliver window (show_notification n d.app) d.shell in
      (record d { shell = result.0 }, result.1)
  step (finds_update window) d =
      let result = show platform supported window update_available d.shell in
      (record d { shell = result.0 }, result.1)
  step (fetches_update window) d =
      let result = show platform supported window update_downloaded d.shell in
      (record d { shell = result.0 }, result.1)
  step fires d =
      let result = timer_fired platform d.shell in (record d { shell = result.0 }, result.1)

  -- The last state, and the notifications that were shown.
  unfoldable pub run : List Event → Desk → Desk × List Notice
  unfolding step shown
  run [] d = (d, [])
  run (e ∷ es) d =
      let next = step e d in let rest = run es next.0 in (rest.0, shown next.1 ++ rest.1)

  -- The application read its configuration while notifications were off, and none waits but those
  -- of the updater.
  abbrev pub IsMuted : AppConfig → Desk → Type 0
  IsMuted c d =
      (d.app.app_config ≡ some c) × (c.notifications.enabled ≡ false) × All IsUpdate d.shell.queue

  -- A result that stays muted and showed nothing but updates.
  abbrev IsSilent : AppConfig → Desk × List Effect → Type 0
  IsSilent c result = IsMuted c result.0 × All IsUpdate (shown result.1)

  login-shown : (test login : Bool) → shown (if test then set_login_item login ∷ [] else []) ≡ []
  unfolding shown
  login-shown true login = refl
  login-shown false login = refl

  none_shown : (es : List Effect) → shown es ≡ [] → All IsUpdate (shown es)
  none_shown es e = subst (All IsUpdate) (sym e) tt

  -- A result of a save is silent.
  abbrev Quiet : SettingsWindow × Native × Shell × List Effect → Type 0
  Quiet r = All IsUpdate r.2.queue × (shown r.3 ≡ [])

  abbrev QuietUpdate : Bool × Native × Shell × List Effect → Type 0
  QuietUpdate r = All IsUpdate r.2.queue × (shown r.3 ≡ [])

  update-Quiet :
      (reached : Bool) (u : Updates) (n : Native) (s : Shell)
      → All IsUpdate s.queue
      → QuietUpdate (update_app_config platform reached u n s)
  unfolding update_app_config write_config app_config_set shown
  update-Quiet reached u n s bare =
      if-either QuietUpdate (not n.is_electron || not (is_some n.app_config))
        (λ early. (bare, refl))
        (λ late.
          if-either QuietUpdate reached (λ yes_. (bare, login-shown (is_darwin platform) _))
            (λ no_. (bare, refl)))

  begin-Quiet :
      (reached : Bool) (w : SettingsWindow) (n : Native) (s : Shell)
      → All IsUpdate s.queue
      → Quiet (begin_save platform reached w n s)
  unfolding begin_save shown
  begin-Quiet reached w n s bare =
      if-either Quiet n.is_electron
        (λ inside. update-Quiet reached (updates_of w.settings) n s bare) (λ outside. (bare, refl))

  save-IsSilent :
      (c : AppConfig) (reached : Bool) (d : Desk) → IsMuted c d → IsSilent c (save reached d)
  unfolding save
  save-IsSilent c reached d (held, off, bare) =
      let quiet = begin-Quiet reached d.window d.native d.shell bare in
      ((held, off, quiet.0), none_shown _ quiet.1)

  off-allows :
      (o : Option AppConfig) (c : AppConfig) (n : Notice)
      → o ≡ some c
      → c.notifications.enabled ≡ false
      → allows o n ≡ false
  off-allows o c n held off =
      ap (λ p. allows p n) held
      ∙ ap
          (λ on.
            on
            && not (n.is_mention && not c.notifications.mentions)
            && not (is_dm n.channel_id && not c.notifications.direct_messages))
          off

  blocked :
      (c : AppConfig) (n : Notice) (a : Native)
      → a.app_config ≡ some c
      → c.notifications.enabled ≡ false
      → show_notification n a ≡ none
  unfolding show_notification
  blocked c n a held off =
      if-either (λ o. o ≡ none) (a.is_electron && allows a.app_config n)
        (λ let_through. absurd_true _ _ let_through (off-allows a.app_config c n held off))
        (λ stopped. refl)

  -- A result of the main process that shows and holds nothing but updates.
  abbrev Idle : Shell × List Effect → Type 0
  Idle r = All IsUpdate r.0.queue × All IsUpdate (shown r.1)

  bounce-shown : (test : Bool) → All IsUpdate (shown (if test then bounce ∷ [] else []))
  unfolding shown
  bounce-shown true = tt
  bounce-shown false = tt

  shift-Idle :
      (q : List Notice) (s : Shell)
      → All IsUpdate q
      → All IsUpdate s.queue
      → Idle (shift q platform s)
  unfolding shift shown
  shift-Idle [] s updates bare = (bare, tt)
  shift-Idle (n ∷ q) s (u, updates) bare =
      (updates, (u, bounce-shown (is_darwin platform && n.is_mention)))

  fire-Idle : (waiting : ℕ) (s : Shell) → All IsUpdate s.queue → Idle (fire waiting platform s)
  unfolding fire process_notification_queue shown
  fire-Idle zero s bare = (bare, tt)
  fire-Idle (suc waiting) s bare = shift-Idle s.queue (record s { timers = waiting }) bare bare

  stopped-Idle :
      (window : Option Window) (o : Option Notice) (s : Shell)
      → o ≡ none
      → All IsUpdate s.queue
      → Idle (deliver window o s)
  unfolding deliver shown
  stopped-Idle window none s e bare = (bare, tt)
  stopped-Idle window (some n) s e bare = ground arith

  show-Idle :
      (window : Option Window) (n : Notice) (s : Shell)
      → IsUpdate n
      → All IsUpdate s.queue
      → Idle (show platform supported window n s)
  unfolding show enqueue process_notification_queue shown
  show-Idle window n s update bare =
      let grown = All-append IsUpdate s.queue (n ∷ []) bare (update, tt) in
      if-either Idle (not s.config.notifications.enabled || not supported) (λ off. (bare, tt))
        (λ on.
          if-either Idle (is_active window) (λ seen. (bare, tt))
            (λ away.
              if-either Idle s.is_processing (λ busy. (grown, tt))
                (λ free. shift-Idle _ (record s { queue = s.queue ++ n ∷ [] }) grown grown)))

  step-IsSilent : (c : AppConfig) (e : Event) (d : Desk) → IsMuted c d → IsSilent c (step e d)
  unfolding step shown timer_fired
  step-IsSilent c opens d muted = (muted, tt)
  step-IsSilent c (edits v) d muted = (muted, tt)
  step-IsSilent c resets d muted = (muted, tt)
  step-IsSilent c cancels d muted = (muted, tt)
  step-IsSilent c (saves reached) d muted = save-IsSilent c reached d muted
  step-IsSilent c ends d muted = (muted, tt)
  step-IsSilent c (notifies window n) d (held, off, bare) =
      let idle =
        stopped-Idle window (show_notification n d.app) d.shell (blocked c n d.app held off) bare in
      ((held, off, idle.0), idle.1)
  step-IsSilent c (finds_update window) d (held, off, bare) =
      let idle = show-Idle window update_available d.shell (inl refl) bare in
      ((held, off, idle.0), idle.1)
  step-IsSilent c (fetches_update window) d (held, off, bare) =
      let idle = show-Idle window update_downloaded d.shell (inr refl) bare in
      ((held, off, idle.0), idle.1)
  step-IsSilent c fires d (held, off, bare) =
      let idle = fire-Idle d.shell.timers d.shell bare in ((held, off, idle.0), idle.1)

  -- Where the application read its configuration while notifications were off and none but the
  -- updater's wait, all that is shown from then on are the two notifications of the updater, which
  -- the main process shows by itself: none of the application's, whatever is edited, reset and
  -- saved in windows of settings.
  pub run-stays_muted :
      (c : AppConfig) (es : List Event) (d : Desk) → IsMuted c d → All IsUpdate (run es d).1
  unfolding run
  run-stays_muted c [] d muted = tt
  run-stays_muted c (e ∷ es) d muted =
      let (now, silent) = step-IsSilent c e d muted in
      All-append IsUpdate (shown (step e d).1) (run es (step e d).0).1 silent
        (run-stays_muted c es (step e d).0 now)
