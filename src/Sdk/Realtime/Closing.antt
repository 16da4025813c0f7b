-- ===== src/Sdk/Realtime/Closing.antt =====
-- What happens around `disconnect` and the close event of a socket.
use agentunited.Prelude.{
  ℕ, ◌+◌, String, Bool, true, false, Option, none, some, List, [], ◌∷◌, ◌≡◌, ◌≢◌, arith, All,
  All-append, refl,
}
use agentunited.Prelude.Js.{Value}
use agentunited.Sdk.Url.{Url, normalize_url}
use agentunited.Sdk.Realtime.{
  Client, connect, timer_fired, on_open, on_error, on_message, on_close, disconnect,
  schedule_reconnect, Effect, emitted, dialled, rejects, reconnects, delay_of, close, reconnecting,
  send, Emit,
}
use agentunited.Sdk.Realtime.Promises.{
  Event, connects, fires, opens, fails, receives, closes, disconnects, step, run, IsSettled,
}

-- No handler throws.
abbrev pub undisturbed : Emit → Bool
undisturbed e = false

-- Events of the sockets alone.
abbrev pub IsPassive : Event → Type 0
IsPassive (connects parse impl) = ⊥
IsPassive (fires t parse impl) = ⊥
IsPassive (disconnects code reason) = ⊥
IsPassive _ = Unit

-- The platform has no pending timer but the one that the client remembers.
abbrev pub IsTidy : Client → Type 0
IsTidy c = c.timers ≡ elim c.reconnect_timer [ none ↦ [] | some t ↦ t ∷ [] ]

abbrev pub IsReport : Effect → Type 0
IsReport (emitted e) = Unit
IsReport (rejects why) = Unit
IsReport _ = ⊥

abbrev pub IsDown : Client → Type 0
IsDown c = (c.socket ≡ none) × (c.timers ≡ []) × (c.manually_closed ≡ true)

step-IsDown :
    (e : Event) (c : Client)
    → IsPassive e
    → IsDown c
    → IsDown (step e c).0 × All IsReport (step e c).1
unfolding step on_open on_error on_message on_close
step-IsDown (opens throws h) c q d = ground arith
step-IsDown (fails throws h) c q d = ground arith
step-IsDown (receives decode text) c q d = (d, (tt, tt))
step-IsDown (closes throws h code reason timer) c q d = ground arith
step-IsDown (connects parse impl) c q d = elim q [ ]
step-IsDown (fires t parse impl) c q d = elim q [ ]
step-IsDown (disconnects code reason) c q d = elim q [ ]

run-IsDown :
    (es : List Event) (c : Client)
    → All IsPassive es
    → IsDown c
    → IsDown (run es c).0 × All IsReport (run es c).1
unfolding run
run-IsDown [] c q d = (d, tt)
run-IsDown (e ∷ es) c (q, qs) d =
    let (d', out) = step-IsDown e c q d in
    let (d'', rest) = run-IsDown es (step e c).0 qs d' in
    (d'', All-append IsReport (step e c).1 (run es (step e c).0).1 out rest)

-- After `disconnect` the client has no socket and, if the timer that it remembered was the only
-- one, no timer is pending: whatever the old sockets report, none is opened or scheduled.
pub disconnect_is_final :
    (code : ℕ) (reason : String) (es : List Event) (c : Client)
    → IsTidy c
    → All IsPassive es
    → IsDown (run es (disconnect code reason c).0).0
      × All IsReport (run es (disconnect code reason c).0).1
unfolding disconnect
disconnect_is_final code reason es c tidy q = run-IsDown es _ q (refl, ground arith, refl)

-- Where automatic reconnection is on, the socket was not closed by the caller and no handler
-- throws, the close event is reported, the attempt is counted and announced with the configured
-- delay (one second if none is given), and when the timer fires a socket is dialled at the
-- normalised address.
pub close_redials :
    (h h' code t : ℕ) (reason : String) (parse : String → Option Url) (dial : Url → Option ℕ)
    (url : Url) (c : Client)
    → c.manually_closed ≡ false
    → reconnects c ≡ true
    → IsSettled (c.promises h)
    → parse c.options.url ≡ some url
    → dial (normalize_url c.options.api_key url) ≡ some h'
    → ((step (closes undisturbed h code reason t) c).1
        ≡ emitted (close code reason)
          ∷ emitted (reconnecting (c.reconnect_attempt + 1) (delay_of c))
          ∷ [])
      × ((step (fires t parse (some dial)) (step (closes undisturbed h code reason t) c).0).1
          ≡ dialled (normalize_url c.options.api_key url) h' ∷ [])
      × ((step (fires t parse (some dial)) (step (closes undisturbed h code reason t) c).0).0.socket
          ≡ some h')
unfolding step on_close schedule_reconnect timer_fired connect
close_redials h h' code t reason parse dial url c manual auto settled parsed up = ground arith

-- A client remembers one timer only. If no handler throws and two of its sockets close one after
-- the other, two timers are pending, `disconnect` clears the second, and when the first fires the
-- client dials again, though it was told to disconnect.
pub timer_survives_disconnect :
    (h₁ h₂ h' t₁ t₂ code : ℕ) (reason : String) (parse : String → Option Url)
    (dial : Url → Option ℕ) (url : Url) (c : Client)
    → c.manually_closed ≡ false
    → reconnects c ≡ true
    → c.timers ≡ []
    → t₁ ≢ t₂
    → parse c.options.url ≡ some url
    → dial (normalize_url c.options.api_key url) ≡ some h'
    → let down =
        (run
          (closes undisturbed h₁ code reason t₁
            ∷ closes undisturbed h₂ code reason t₂
            ∷ disconnects code reason
            ∷ [])
          c).0 in
      (down.timers ≡ t₁ ∷ [])
      × ((step (fires t₁ parse (some dial)) down).0.socket ≡ some h')
      × ((step (fires t₁ parse (some dial)) down).0.manually_closed ≡ false)
unfolding run step on_close schedule_reconnect timer_fired connect disconnect
timer_survives_disconnect h₁ h₂ h' t₁ t₂ code reason parse dial url c manual auto idle ne parsed
      up =
    ground arith

-- The close event of any socket, where no handler of it throws, drops the socket that the client
-- uses, also where it comes from an older socket after a new `connect`: the client can no longer
-- send, whatever the state of the new socket is.
late_close_drops_socket :
    (h h' code t : ℕ) (reason : String) (opened : ℕ → Bool) (v : Value) (c : Client)
    → c.socket ≡ some h'
    → opened h' ≡ true
    → (send opened v c ≡ some (h', v))
      × (send opened v (step (closes undisturbed h code reason t) c).0 ≡ none)
unfolding step on_close schedule_reconnect send
late_close_drops_socket h h' code t reason opened v c up ready = ground arith
