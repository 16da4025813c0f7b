-- ===== src/Web/Socket/Retries.antt =====
-- How often and how late the socket reconnects.
use native.Mathlib.Nat.{pow-suc}
use agentunited.Prelude.{
  ℕ, zero, suc, ◌*◌, ◌^◌, ◌≤◌, ◌<◌, min, ◌≡◌, refl, ◌∙◌, String, Bool, false, Option, none, some,
  List, [], ◌∷◌, arith,
}
use agentunited.Web.Socket.{
  Socket, connect, timer_fired, on_open, on_close, schedule_reconnect, disconnect,
}

pub data Event : Type 0 where
  connects opens : Event
  closes : Bool → Event
  fires : Event
  disconnects : Event

module _ (dial : String → Option ℕ) (encode : String → String) (token : Option String) where
  -- A timer fires only while it is pending. Messages and errors leave the socket as it is.
  pub step : Event → Socket → Socket
  step connects s = (connect dial encode token s).0
  step opens s = (on_open s).0
  step (closes clean) s = (on_close clean s).0
  step fires s = elim s.reconnect_timer [ none ↦ s | some _ ↦ (timer_fired dial encode token s).0 ]
  step disconnects s = (disconnect s).0

  pub run : List Event → Socket → Socket
  run [] s = s
  run (e ∷ es) s = run es (step e s)

  pub record IsPaced (s : Socket) : Type 0 where
    pub limit : s.max_reconnect_attempts ≡ 5
    pub attempts : s.reconnect_attempts ≤ 5
    pub slowest : s.reconnect_delay ≤ 30000
    pub fastest : 1000 ≤ s.reconnect_delay
    pub pending : (d : ℕ) → s.reconnect_timer ≡ some d → (1000 ≤ d) × (d ≤ 30000)

  step-IsPaced : (e : Event) (s : Socket) → IsPaced s → IsPaced (step e s)
  unfolding step connect timer_fired on_open on_close schedule_reconnect disconnect
  step-IsPaced connects s v = record {
    limit = ground (arith, v.limit);
    attempts = ground arith;
    slowest = ground arith;
    fastest = ground arith;
    pending = λ d e. ground (arith, v.pending d);
  }
  step-IsPaced opens s v = record {
    limit = v.limit;
    attempts = ground arith;
    slowest = ground arith;
    fastest = ground arith;
    pending = λ d e. v.pending d e;
  }
  step-IsPaced (closes clean) s v = record {
    limit = ground arith;
    attempts = ground arith;
    slowest = ground arith;
    fastest = ground arith;
    pending = λ d e. ground (arith, e, v.pending d);
  }
  step-IsPaced fires s v = record {
    limit = ground arith;
    attempts = ground arith;
    slowest = ground arith;
    fastest = ground arith;
    pending = λ d e. ground (arith, e, v.pending d);
  }
  step-IsPaced disconnects s v = record {
    limit = v.limit;
    attempts = ground arith;
    slowest = ground arith;
    fastest = ground arith;
    pending = λ d e. ground arith;
  }

  -- In any history the socket makes at most five attempts in a row, and every delay lies between
  -- one and thirty seconds.
  pub run-IsPaced : (es : List Event) (s : Socket) → IsPaced s → IsPaced (run es s)
  unfolding run
  run-IsPaced [] s v = v
  run-IsPaced (e ∷ es) s v = run-IsPaced es (step e s) (step-IsPaced e s v)

  -- n times in a row the socket closes uncleanly, waits, and dials again without being opened.
  unfoldable pub failures : ℕ → Socket → Socket
  failures zero s = s
  failures (suc n) s = step fires (step (closes false) (failures n s))

  failure_step :
      (n d : ℕ) (s : Socket)
      → n < 5
      → s.max_reconnect_attempts ≡ 5
      → s.reconnect_attempts ≡ n
      → s.reconnect_delay ≡ d
      → s.reconnect_timer ≡ none
      → ((step fires (step (closes false) s)).reconnect_attempts ≡ suc n)
        × ((step fires (step (closes false) s)).reconnect_delay ≡ min (d * 2) 30000)
        × ((step fires (step (closes false) s)).reconnect_timer ≡ none)
        × ((step fires (step (closes false) s)).max_reconnect_attempts ≡ 5)
  unfolding step on_close schedule_reconnect timer_fired connect
  failure_step n d s small limit count delay idle = ground arith

  doubled : (n : ℕ) → min (min (1000 * 2 ^ n) 30000 * 2) 30000 ≡ min (1000 * 2 ^ suc n) 30000
  doubled n = rw (pow-suc 2 n) (omega arith)

  failures_state :
      (n : ℕ) (s : Socket)
      → n ≤ 5
      → s.max_reconnect_attempts ≡ 5
      → s.reconnect_timer ≡ none
      → ((failures n (step opens s)).reconnect_attempts ≡ n)
        × ((failures n (step opens s)).reconnect_delay ≡ min (1000 * 2 ^ n) 30000)
        × ((failures n (step opens s)).reconnect_timer ≡ none)
        × ((failures n (step opens s)).max_reconnect_attempts ≡ 5)
  unfolding failures
  failures_state zero s small limit idle = unfold step on_open in (refl, refl, idle, limit)
  failures_state (suc n) s small limit idle =
      let (count, delay, free, max) = failures_state n s (omega arith) limit idle in
      let (count', delay', free', max') =
        failure_step n (min (1000 * 2 ^ n) 30000) (failures n (step opens s)) (omega arith) max
          count delay free in
      (count', delay' ∙ doubled n, free', max')

  next_close :
      (n : ℕ) (s : Socket)
      → s.reconnect_attempts ≡ n
      → s.reconnect_delay ≡ min (1000 * 2 ^ n) 30000
      → s.reconnect_timer ≡ none
      → s.max_reconnect_attempts ≡ 5
      → n < 5
      → (step (closes false) s).reconnect_timer ≡ some (min (1000 * 2 ^ n) 30000)
  unfolding step on_close schedule_reconnect
  next_close n s count delay free max room = ground arith

  last_close :
      (n : ℕ) (s : Socket)
      → s.reconnect_attempts ≡ n
      → s.reconnect_timer ≡ none
      → s.max_reconnect_attempts ≡ 5
      → n ≡ 5
      → (step (closes false) s).reconnect_timer ≡ none
  unfolding step on_close schedule_reconnect
  last_close n s count free max full = ground arith

  -- A socket that was open waits 1000 * 2^n milliseconds, at most thirty seconds, before attempt
  -- n + 1, and after five failures in a row one more unclean close sets no timer: it gives up.
  pub failures_lem :
      (n : ℕ) (s : Socket)
      → n ≤ 5
      → s.max_reconnect_attempts ≡ 5
      → s.reconnect_timer ≡ none
      → ((failures n (step opens s)).reconnect_attempts ≡ n)
        × ((failures n (step opens s)).reconnect_delay ≡ min (1000 * 2 ^ n) 30000)
        × (n < 5
            → (step (closes false) (failures n (step opens s))).reconnect_timer
              ≡ some (min (1000 * 2 ^ n) 30000))
        × (n ≡ 5 → (step (closes false) (failures n (step opens s))).reconnect_timer ≡ none)
  failures_lem n s small limit idle =
      let (count, delay, free, max) = failures_state n s small limit idle in
      (
        count,
        delay,
        next_close n (failures n (step opens s)) count delay free max,
        last_close n (failures n (step opens s)) count free max,
      )
