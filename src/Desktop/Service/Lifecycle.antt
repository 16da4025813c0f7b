-- ===== src/Desktop/Service/Lifecycle.antt =====
-- Histories of the connection: calls of the program and events of the browser, in any order.
use agentunited.Prelude.{
  ℕ, zero, suc, ◌+◌, ◌≤◌, ◌<◌, ◌≡◌, refl, sym, subst, String, Bool, true, false, Option, none, some,
  List, [], ◌∷◌, ◌++◌, map, arith, All, All-append, is_some,
}
use agentunited.Prelude.Js.{Value}
use agentunited.Desktop.Service.{
  ReadyState, Service, Effect, notify, deliver, Reply, connect, dial_now, on_open, on_message,
  on_error, on_close, disconnect, timer_fired, schedule_reconnect, delay_of, is_connected,
  sent_token, closed,
}

-- What can happen next: `ready` is what the sockets' readyState is at that moment.
pub data Event : Type 0 where
  connects : (ℕ → ReadyState) → Event
  opens : Event
  receives : Option (String × Value) → Event
  fails : Event
  closes : Bool → Event
  fires : (ℕ → ReadyState) → Event
  disconnects : Event

module _ (dial : String → Option String → Option ℕ) where
  -- A timer fires only while it is pending.
  pub step : Event → Service → Reply
  step (connects ready) s = connect dial ready s
  step opens s = on_open s
  step (receives m) s = on_message m s
  step fails s = on_error s
  step (closes clean) s = on_close clean s
  step (fires ready) s = elim s.reconnect_timer [
    | none ↦ (s, [])
    | some _ ↦ timer_fired dial ready s
  ]
  step disconnects s = disconnect s

  pub run : List Event → Service → Reply
  run [] s = (s, [])
  run (e ∷ es) s = let (s', out) = step e s in let (t, rest) = run es s' in (t, out ++ rest)

  -- A pending timer waits at most 30 seconds and leaves room for one more attempt.
  pub record IsBounded (most : ℕ) (s : Service) : Type 0 where
    pub limit : s.config.max_reconnect_attempts ≡ most
    pub attempts : s.reconnect_attempts ≤ most
    pub room : is_some s.reconnect_timer ≡ true → s.reconnect_attempts < most

  step-IsBounded :
      (most : ℕ) (e : Event) (s : Service)
      → ((url : String) (token : Option String) → is_some (dial url token) ≡ true)
      → IsBounded most s
      → IsBounded most (step e s).0
  unfolding step connect dial_now timer_fired on_open on_message on_error on_close disconnect
      schedule_reconnect
  step-IsBounded most (connects ready) s d v =
      ground (arith, d s.config.url (sent_token s.config.token))
  step-IsBounded most (fires ready) s d v =
      ground (arith, d s.config.url (sent_token s.config.token))
  step-IsBounded most (receives none) s d v = v
  step-IsBounded most (receives (some m)) s d v = record {
    limit = v.limit;
    attempts = v.attempts;
    room = v.room;
  }
  step-IsBounded most e s d v = ground arith

  -- Where `new URL` and `new WebSocket` never throw, the reconnect attempts of any history stay
  -- within the configured maximum, and a timer is pending only while one more attempt is allowed.
  pub run-IsBounded :
      (most : ℕ) (es : List Event) (s : Service)
      → ((url : String) (token : Option String) → is_some (dial url token) ≡ true)
      → IsBounded most s
      → IsBounded most (run es s).0
  unfolding run
  run-IsBounded most [] s d v = v
  run-IsBounded most (e ∷ es) s d v =
      run-IsBounded most es (step e s).0 d (step-IsBounded most e s d v)

-- The timer fires n times while no socket is open.
abbrev pub fires_often : ℕ → List Event
fires_often zero = []
fires_often (suc n) = fires (λ _. closed) ∷ fires_often n

-- What the program calls back, as against what it does to sockets and timers.
abbrev pub IsNotice : Effect → Type 0
IsNotice (notify b c) = Unit
IsNotice (deliver v c) = Unit
IsNotice _ = ⊥

-- Opened, message and error events, and clean closes.
abbrev pub IsQuiet : Event → Type 0
IsQuiet opens = Unit
IsQuiet (receives m) = Unit
IsQuiet fails = Unit
IsQuiet (closes clean) = clean ≡ true
IsQuiet _ = ⊥

abbrev IsIdle : Service → Type 0
IsIdle s = (s.ws ≡ none) × (s.reconnect_timer ≡ none)

notify-IsNotice : (b : Bool) (cs : List ℕ) → All IsNotice (map (notify b) cs)
notify-IsNotice b [] = tt
notify-IsNotice b (c ∷ cs) = (tt, notify-IsNotice b cs)

deliver-IsNotice : (v : Value) (cs : List ℕ) → All IsNotice (map (deliver v) cs)
deliver-IsNotice v [] = tt
deliver-IsNotice v (c ∷ cs) = (tt, deliver-IsNotice v cs)

module _ (dial : String → Option String → Option ℕ) where
  step-IsIdle :
      (e : Event) (s : Service)
      → IsQuiet e
      → IsIdle s
      → IsIdle (step dial e s).0 × All IsNotice (step dial e s).1
  unfolding step on_open on_message on_error on_close
  step-IsIdle opens s q h = (h, notify-IsNotice true s.connection_listeners)
  step-IsIdle (receives none) s q h = (h, tt)
  step-IsIdle (receives (some (t, v))) s q h = (h, deliver-IsNotice v _)
  step-IsIdle fails s q h = (h, tt)
  step-IsIdle (closes true) s q h = (h, notify-IsNotice false s.connection_listeners)
  step-IsIdle (closes false) s q h = cc
  step-IsIdle (connects _) s q h = elim q [ ]
  step-IsIdle (fires _) s q h = elim q [ ]
  step-IsIdle disconnects s q h = elim q [ ]

  run-IsIdle :
      (es : List Event) (s : Service)
      → All IsQuiet es
      → IsIdle s
      → IsIdle (run dial es s).0 × All IsNotice (run dial es s).1
  unfolding run
  run-IsIdle [] s q h = (h, tt)
  run-IsIdle (e ∷ es) s (q, qs) h =
      let (idle, out) = step-IsIdle e s q h in
      let (idle', rest) = run-IsIdle es (step dial e s).0 qs idle in
      (idle', All-append IsNotice (step dial e s).1 (run dial es (step dial e s).0).1 out rest)

  -- After `disconnect` there is no socket and no timer, and however many messages, errors and clean
  -- closes of the old socket follow, there is none, and all that happens is calls of listeners.
  pub run-disconnect :
      (es : List Event) (s : Service)
      → All IsQuiet es
      → (((run dial es (disconnect s).0).0.ws ≡ none)
          × ((run dial es (disconnect s).0).0.reconnect_timer ≡ none))
        × All IsNotice (run dial es (disconnect s).0).1
  unfolding disconnect
  run-disconnect es s q = run-IsIdle es _ q (refl, refl)

  -- `disconnect` does not cancel the attempt that it interrupts: if the socket then closes
  -- uncleanly, as one that was still connecting does, and attempts are left, the service sets a
  -- timer to reconnect.
  pub disconnect_reconnects :
      (s : Service)
      → s.reconnect_attempts < s.config.max_reconnect_attempts
      → (step dial (closes false) (disconnect s).0).0.reconnect_timer
        ≡ some (delay_of s.config s.reconnect_attempts)
  unfolding step disconnect on_close schedule_reconnect
  disconnect_reconnects s room = ground arith

  retry_step :
      (s : Service)
      → dial s.config.url (sent_token s.config.token) ≡ none
      → is_some s.reconnect_timer ≡ true
      → s.is_connecting ≡ false
      → ((step dial (fires (λ _. closed)) s).0.reconnect_attempts ≡ s.reconnect_attempts + 1)
        × ((step dial (fires (λ _. closed)) s).0.config ≡ s.config)
        × (is_some (step dial (fires (λ _. closed)) s).0.reconnect_timer ≡ true)
        × ((step dial (fires (λ _. closed)) s).0.is_connecting ≡ false)
  unfolding step timer_fired connect dial_now is_connected schedule_reconnect
  retry_step s down pending idle = ground arith

  -- Where `new URL` or `new WebSocket` throws, the maximum has no effect: a pending timer that fires
  -- n times counts n more attempts, whatever the maximum is, and a timer is still pending.
  pub retries_without_end :
      (n : ℕ) (s : Service)
      → dial s.config.url (sent_token s.config.token) ≡ none
      → is_some s.reconnect_timer ≡ true
      → s.is_connecting ≡ false
      → ((run dial (fires_often n) s).0.reconnect_attempts ≡ s.reconnect_attempts + n)
        × (is_some (run dial (fires_often n) s).0.reconnect_timer ≡ true)
  unfolding run
  retries_without_end zero s down pending idle = (omega arith, pending)
  retries_without_end (suc n) s down pending idle =
      let (counted, same, pending', idle') = retry_step s down pending idle in
      let s' : Service = (step dial (fires (λ _. closed)) s).0 in
      let down' = subst (λ c. dial c.url (sent_token c.token) ≡ none) (sym same) down in
      let (total, still) = retries_without_end n s' down' pending' idle' in
      (omega (arith, total, counted), still)
