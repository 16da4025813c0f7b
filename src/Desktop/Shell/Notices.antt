-- ===== src/Desktop/Shell/Notices.antt =====
-- Which notifications are shown, in which order, and how they are spaced.
use agentunited.Prelude.{
  ℕ, suc, zero, Bool, true, false, not, ◌&&◌, ◌||◌, Option, some, List, [], ◌∷◌, ◌++◌, append-nil,
  append_assoc, length, if◌then◌else◌, if-either, ◌⊎◌, ◌≡◌, refl, sym, ap, ◌∙◌, arith, inl, inr,
}
use agentunited.Desktop.Shell.{
  enqueue, set_login_item, Shell, Notice, Effect, Window, Platform, Notifications, show_notice,
  bounce, process_notification_queue, shift, fire, is_darwin, timer_fired, show_notification,
  app_config_set, is_active,
}

pub data Event : Type 0 where
  notifies : Option Window → Notice → Event
  configures : Option Notifications → Option Bool → Option Bool → Event
  fires : Event

-- The notifications that effects show.
unfoldable pub shown : List Effect → List Notice
shown [] = []
shown (show_notice n silent ∷ es) = n ∷ shown es
shown (_ ∷ es) = shown es

-- The notifications are on, and the window is not the active one.
abbrev pub accepts : Bool → Option Window → Shell → Bool
accepts supported window s = s.config.notifications.enabled && supported && not (is_active window)

module _ (platform : Platform) (supported : Bool) where
  unfoldable pub step : Event → Shell → Shell × List Effect
  unfolding show_notification timer_fired
  step (notifies window n) s = show_notification platform supported window n s
  step (configures n b l) s = app_config_set platform n b l s
  step fires s = timer_fired platform s

  unfoldable pub accepted_in : Event → Shell → List Notice
  accepted_in (notifies window n) s = if accepts supported window s then n ∷ [] else []
  accepted_in (configures n b l) s = []
  accepted_in fires s = []

  -- The last state, what was shown and what was accepted.
  unfoldable pub run : List Event → Shell → Shell × List Notice × List Notice
  unfolding step accepted_in
  run [] s = (s, [], [])
  run (e ∷ es) s =
      let next = step e s in
      let rest = run es next.0 in (rest.0, shown next.1 ++ rest.1, accepted_in e s ++ rest.2)

  -- One timer waits while notifications are processed; otherwise none does and the queue is empty.
  abbrev pub IsPaced : Shell → Type 0
  IsPaced s =
      (s.is_processing ≡ true) × (s.timers ≡ 1)
      ⊎ (s.is_processing ≡ false) × (s.timers ≡ 0) × (s.queue ≡ [])

  -- A result that is paced, with what it showed or still holds.
  abbrev Accounts : List Notice → Shell × List Effect → Type 0
  Accounts notices result = IsPaced result.0 × (shown result.1 ++ result.0.queue ≡ notices)

  login-shown : (test login : Bool) → shown (if test then set_login_item login ∷ [] else []) ≡ []
  unfolding shown
  login-shown true login = refl
  login-shown false login = refl

  bounce-shown : (test : Bool) → shown (if test then bounce ∷ [] else []) ≡ []
  unfolding shown
  bounce-shown true = refl
  bounce-shown false = refl

  shift-Accounts :
      (q : List Notice) (s : Shell) → s.queue ≡ q → s.timers ≡ 0 → Accounts q (shift q platform s)
  unfolding shift shown
  shift-Accounts [] s e idle = (inr (refl, idle, e), e)
  shift-Accounts (n ∷ q) s e idle = (
    inl (refl, ap suc idle),
    ap (λ ns. n ∷ ns ++ q) (bounce-shown (is_darwin platform && n.is_mention)),
  )

  waits : (s : Shell) → IsPaced s → s.is_processing ≡ true → s.timers ≡ 1
  waits s (inl (busy, one)) y = one
  waits s (inr (free, none_waits, bare)) y = ground arith

  rests : (s : Shell) → IsPaced s → s.is_processing ≡ false → s.timers ≡ 0
  rests s (inl (busy, one)) y = ground arith
  rests s (inr (free, none_waits, bare)) y = none_waits

  enqueue-Accounts :
      (n : Notice) (s : Shell) → IsPaced s → Accounts (s.queue ++ n ∷ []) (enqueue platform n s)
  unfolding enqueue process_notification_queue shown
  enqueue-Accounts n s paced =
      let queued = record s { queue = s.queue ++ n ∷ [] } in
      if-either (Accounts (s.queue ++ n ∷ [])) s.is_processing
        (λ busy. (inl (busy, waits s paced busy), refl))
        (λ free. shift-Accounts (s.queue ++ n ∷ []) queued refl (rests s paced free))

  decided :
      (on has active : Bool) (n : Notice) (q : List Notice) (kept queued : Shell × List Effect)
      → Accounts (q ++ []) kept
      → Accounts (q ++ n ∷ []) queued
      → Accounts
          (q ++ (if on && has && not active then n ∷ [] else []))
          (if not on || not has then kept else if active then kept else queued)
  decided false has active n q kept queued first second = first
  decided true false active n q kept queued first second = first
  decided true true true n q kept queued first second = first
  decided true true false n q kept queued first second = second

  kept-Accounts : (s : Shell) → IsPaced s → Accounts (s.queue ++ []) (s, [])
  unfolding shown
  kept-Accounts s paced = (paced, sym (append-nil s.queue))

  notify-Accounts :
      (window : Option Window) (n : Notice) (s : Shell)
      → IsPaced s
      → Accounts (s.queue ++ accepted_in (notifies window n) s) (step (notifies window n) s)
  unfolding step accepted_in show_notification
  notify-Accounts window n s paced =
      decided s.config.notifications.enabled supported (is_active window) n s.queue (s, [])
        (enqueue platform n s) (kept-Accounts s paced) (enqueue-Accounts n s paced)

  fire-Accounts : (s : Shell) → IsPaced s → Accounts s.queue (step fires s)
  unfolding step timer_fired fire process_notification_queue shown
  fire-Accounts s (inl (busy, one)) =
      rw one (shift-Accounts s.queue (record s { timers = 0 }) refl refl)
  fire-Accounts s (inr (free, none_waits, bare)) = rw none_waits (inr (free, refl, bare), refl)

  configure-Accounts :
      (n : Option Notifications) (b l : Option Bool) (s : Shell)
      → IsPaced s
      → Accounts s.queue (step (configures n b l) s)
  unfolding step app_config_set shown
  configure-Accounts n b l s paced =
      (paced, ap (λ ns. ns ++ s.queue) (login-shown (is_darwin platform) _))

  step-Accounts :
      (e : Event) (s : Shell) → IsPaced s → Accounts (s.queue ++ accepted_in e s) (step e s)
  unfolding accepted_in
  step-Accounts (notifies window n) s paced = notify-Accounts window n s paced
  step-Accounts (configures n b l) s paced =
      let (now, held) = configure-Accounts n b l s paced in (now, held ∙ sym (append-nil s.queue))
  step-Accounts fires s paced =
      let (now, held) = fire-Accounts s paced in (now, held ∙ sym (append-nil s.queue))

  -- From a paced state, every sequence of events keeps the state paced, and each notification that
  -- was waiting or was accepted is shown once, in the order of acceptance, or is still waiting.
  pub run-shown :
      (es : List Event) (s : Shell)
      → IsPaced s
      → IsPaced (run es s).0 × ((run es s).1 ++ (run es s).0.queue ≡ s.queue ++ (run es s).2)
  unfolding run
  run-shown [] s paced = (paced, sym (append-nil s.queue))
  run-shown (e ∷ es) s paced =
      let (now, held) = step-Accounts e s paced in
      let (then_paced, later) = run-shown es (step e s).0 now in
      let rest = run es (step e s).0 in
      (
        then_paced,
        append_assoc (shown (step e s).1) rest.1 rest.0.queue
            ∙ ap (λ ns. shown (step e s).1 ++ ns) later
            ∙ sym (append_assoc (shown (step e s).1) (step e s).0.queue rest.2)
            ∙ ap (λ ns. ns ++ rest.2) held
            ∙ append_assoc s.queue (accepted_in e s) rest.2,
      )

  -- k fires of the timer, with what they show.
  unfoldable pub fire_times : ℕ → Shell → Shell × List Notice
  unfolding step shown
  fire_times zero s = (s, [])
  fire_times (suc k) s =
      let next = step fires s in let rest = fire_times k next.0 in (rest.0, shown next.1 ++ rest.1)

  fires-cons :
      (n : Notice) (q : List Notice) (s : Shell)
      → s.queue ≡ n ∷ q
      → s.timers ≡ 1
      → ((step fires s).0.queue ≡ q)
        × ((step fires s).0.timers ≡ 1)
        × (shown (step fires s).1 ≡ n ∷ [])
  unfolding step timer_fired fire process_notification_queue shift shown
  fires-cons n q s e one =
      rw (one, e) (refl, refl, ap (◌∷◌ n) (bounce-shown (is_darwin platform && n.is_mention)))

  -- While one timer waits, as many fires as notifications wait, and one more, show them all and
  -- leave no timer behind.
  pub fire_times_drains :
      (q : List Notice) (s : Shell)
      → s.queue ≡ q
      → s.timers ≡ 1
      → ((fire_times (suc (length q)) s).1 ≡ q)
        × ((fire_times (suc (length q)) s).0.queue ≡ [])
        × ((fire_times (suc (length q)) s).0.is_processing ≡ false)
        × ((fire_times (suc (length q)) s).0.timers ≡ 0)
  unfolding fire_times step timer_fired fire process_notification_queue shift shown
  fire_times_drains [] s e one = rw (one, e) (refl, refl, refl, refl)
  fire_times_drains (n ∷ q) s e one =
      let next = fires-cons n q s e one in
      let ih = fire_times_drains q (step fires s).0 next.0 next.1 in
      (
        ap (λ ns. ns ++ (fire_times (suc (length q)) (step fires s).0).1) next.2 ∙ ap (◌∷◌ n) ih.0,
        ih.1,
        ih.2,
        ih.3,
      )

  -- A notification for a window that is active is not shown, but one that waits is shown when the
  -- timer fires, which does not ask whether the window is active by then.
  pub waiting_shows_in_active :
      (n : Notice) (q : List Notice) (w : Window) (s : Shell)
      → w.is_focused ≡ true
      → s.queue ≡ n ∷ q
      → s.timers ≡ 1
      → (shown (step (notifies (some w) n) s).1 ≡ []) × (shown (step fires s).1 ≡ n ∷ [])
  unfolding step show_notification shown
  waiting_shows_in_active n q w s active e one = (
    if-either (λ (r : Shell × List Effect). shown r.1 ≡ [])
        (not s.config.notifications.enabled || not supported) (λ off. refl) (λ on. rw active refl),
    (fires-cons n q s e one).2,
  )
