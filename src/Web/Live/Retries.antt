-- ===== src/Web/Live/Retries.antt =====
-- The reconnects of the page's socket.
use agentunited.Prelude.{
  ℕ, ◌*◌, ◌^◌, ◌≤◌, ◌<◌, min, String, true, none, some, List, [], ◌∷◌, ◌≡◌, arith,
}
use agentunited.Web.Live.{
  Live, connected, reconnecting, dialled, connect, on_open, on_error, on_close, timer_fired,
  cleanup,
}

pub data Event : Type 0 where
  opens : ℕ → Event
  fails closes : Event
  fires : ℕ → Event
  cleans : Event

-- A timer fires only while it is pending.
pub step : String → String → Event → Live → Live
step url channel (opens h) s = (on_open channel h s).0
step url channel fails s = on_error s
step url channel closes s = on_close s
step url channel (fires h) s = elim s.timer [ none ↦ s | some _ ↦ (timer_fired url h s).0 ]
step url channel cleans s = (cleanup s).0

pub run : String → String → List Event → Live → Live
run url channel [] s = s
run url channel (e ∷ es) s = run url channel es (step url channel e s)

-- The bounds of the reconnects, and how the status and the flag agree.
pub record IsSteady (s : Live) : Type 0 where
  pub attempts : s.reconnect_attempts ≤ 10
  pub shown : s.connection_status ≡ connected → s.is_connected ≡ true
  pub delay : (d : ℕ) → s.timer ≡ some d → d ≤ 30000

step-IsSteady :
    (url channel : String) (e : Event) (s : Live) → IsSteady s → IsSteady (step url channel e s)
unfolding step on_open on_error on_close timer_fired connect cleanup
step-IsSteady url channel (opens h) s v = record {
  attempts = ground (arith, v.attempts);
  shown = λ p. ground (arith, p, v.shown);
  delay = λ d p. ground (arith, p, v.delay d);
}
step-IsSteady url channel fails s v = record {
  attempts = ground (arith, v.attempts);
  shown = λ p. ground (arith, p, v.shown);
  delay = λ d p. ground (arith, p, v.delay d);
}
step-IsSteady url channel closes s v = record {
  attempts = ground (arith, v.attempts);
  shown = λ p. ground (arith, p, v.shown);
  delay = λ d p. ground (arith, p, v.delay d);
}
step-IsSteady url channel (fires h) s v = record {
  attempts = ground (arith, v.attempts);
  shown = λ p. ground (arith, p, v.shown);
  delay = λ d p. ground (arith, p, v.delay d);
}
step-IsSteady url channel cleans s v = record {
  attempts = ground (arith, v.attempts);
  shown = λ p. ground (arith, p, v.shown);
  delay = λ d p. ground (arith, p, v.delay d);
}

-- In any history at most ten attempts are made in a row, no delay is longer than thirty seconds,
-- and the status is "connected" only while the flag `isConnected` is set.
run-IsSteady :
    (url channel : String) (es : List Event) (s : Live)
    → IsSteady s
    → IsSteady (run url channel es s)
unfolding run
run-IsSteady url channel [] s v = v
run-IsSteady url channel (e ∷ es) s v =
    run-IsSteady url channel es (step url channel e s) (step-IsSteady url channel e s v)

-- `cleanup` does not detach the socket's handlers: when the socket that it closes reports the
-- close and attempts are left, a timer is set all the same, and when it fires the page dials the
-- address of the channel that it has left.
pub cleanup_reconnects :
    (url channel : String) (h : ℕ) (s : Live)
    → s.reconnect_attempts < 10
    → ((on_close (cleanup s).0).timer ≡ some (min 30000 (1000 * 2 ^ s.reconnect_attempts)))
      × ((on_close (cleanup s).0).connection_status ≡ reconnecting)
      × ((timer_fired url h (on_close (cleanup s).0)).1 ≡ dialled h url ∷ [])
      × ((timer_fired url h (on_close (cleanup s).0)).0.ws ≡ some h)
unfolding on_close cleanup timer_fired connect
cleanup_reconnects url channel h s room = ground arith
