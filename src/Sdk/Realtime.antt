-- ===== src/Sdk/Realtime.antt =====
-- AgentUnitedRealtimeClient of packages/typescript/src/realtime.ts. A socket and a timer are the
-- handles that the platform gave. An operation returns the new client and its effects, in order;
-- `emitted` is a call of the emitter (Sdk/Emitter). Arguments stand for the platform: `parse` is
-- `new URL`, `impl` the WebSocket constructor (`none` where neither the options nor the platform
-- have one, a result `none` where it throws), `timer` the handle that setTimeout gives, `decode` is
-- JSON.parse, `throws` the events at which a handler of the emitter throws, which ends the listener
-- that emits. `normalizeMessageData`, which turns what a socket delivers into text, is left out.
pub mod Promises
pub mod Closing
mod Tests
use agentunited.Prelude.{
  ℕ, ◌+◌, String, Bool, true, false, not, ◌&&◌, Option, none, some, List, [], ◌∷◌, ◌++◌, ◌==◌,
  if◌then◌else◌, is_some, keep,
}
use agentunited.Prelude.Js.{Value, str, obj, field, no_fields}
use agentunited.Sdk.Url.{Url, normalize_url}

-- Who waits for the promise of a `connect`: a caller, or the callback of the reconnect timer, which
-- turns a rejection into an "error" event.
pub data Owner : Type 0 where
  caller timer_callback : Owner

-- The promise of a `connect` with its flag `settled`, which is not set while it is `waiting`. Where
-- a handler of the open event throws, the flag is set and the promise stays pending: `abandoned`.
pub data Promise : Type 0 where
  unused : Promise
  waiting : Owner → Promise
  resolved : Promise
  rejected : Promise
  abandoned : Promise

pub record Options : Type 0 where
  pub url : String
  pub api_key : Option String
  pub auto_reconnect : Option Bool
  pub reconnect_delay_ms : Option ℕ

-- `timers` are the timers that are pending in the platform, `reconnect_timer` the one that the
-- client remembers. `promises h` belongs to the `connect` that opened socket h.
pub record Client : Type 0 where
  pub options : Options
  pub socket : Option ℕ
  pub reconnect_timer : Option ℕ
  pub reconnect_attempt : ℕ
  pub manually_closed : Bool
  pub promises : ℕ → Promise
  pub timers : List ℕ

pub data Emit : Type 0 where
  open_event : Emit
  error : String → Emit
  message : Value → Emit
  close : ℕ → String → Emit
  reconnecting : ℕ → ℕ → Emit

pub data Effect : Type 0 where
  emitted : Emit → Effect
  dialled : Url → ℕ → Effect
  rejects : String → Effect
  close_socket : ℕ → ℕ → String → Effect

abbrev pub Reply : Type 0
Reply = Client × List Effect

pub make : Options → Client
make options = record {
  options = options;
  socket = none;
  reconnect_timer = none;
  reconnect_attempt = 0;
  manually_closed = false;
  promises = λ h. unused;
  timers = [];
}

abbrev pub settle : ℕ → Promise → (ℕ → Promise) → ℕ → Promise
settle h p promises g = if h == g then p else promises g

-- reject(error): the caller's promise is rejected, the timer's callback emits the error.
abbrev pub rejection : Owner → String → List Effect
rejection caller why = rejects why ∷ []
rejection timer_callback why = emitted (error why) ∷ []

module _ (parse : String → Option Url) (impl : Option (Url → Option ℕ)) where
  pub connect : Owner → Client → Reply
  connect who c =
      let c' = record c { manually_closed = false } in
      elim impl [
        | none ↦ (c', rejection who "A WebSocket implementation is required.")
        | some construct ↦ elim (parse c.options.url) [
          | none ↦ (c', rejection who "Invalid URL")
          | some url ↦ elim (construct (normalize_url c.options.api_key url)) [
            | none ↦ (c', rejection who "WebSocket constructor failed.")
            | some h ↦ (
              record c' { socket = some h; promises = settle h (waiting who) c.promises },
              dialled (normalize_url c.options.api_key url) h ∷ [],
            )
          ]
        ]
      ]

  -- The callback of the reconnect timer.
  pub timer_fired : ℕ → Client → Reply
  unfolding connect
  timer_fired timer c =
      connect timer_callback (record c { timers = keep (λ t. not (timer == t)) c.timers })

pub on_open : (Emit → Bool) → ℕ → Client → Reply
on_open throws h c = elim (c.promises h) [
  | waiting who ↦ (
    record c {
      reconnect_attempt = 0;
      promises = settle h (if throws open_event then abandoned else resolved) c.promises;
    },
    emitted open_event ∷ [],
  )
  | _ ↦ (c, [])
]

abbrev pub failure : Emit
failure = error "WebSocket connection failed."

pub on_error : (Emit → Bool) → ℕ → Client → Reply
on_error throws h c =
    let settling = elim (c.promises h) as (λ p. Reply) [
      | waiting who ↦ (
        record c { promises = settle h rejected c.promises },
        emitted failure ∷ rejection who "WebSocket connection failed.",
      )
      | _ ↦ (c, emitted failure ∷ [])
    ] in
    if throws failure then (c, emitted failure ∷ []) else settling

-- `parseEnvelope`: text that is no JSON is delivered as a "raw" envelope.
pub parse_envelope : (String → Option Value) → String → Value
parse_envelope decode text = elim (decode text) [
  | none ↦ obj (field "type" (str "raw") (field "payload" (str text) no_fields))
  | some v ↦ v
]

pub on_message : (String → Option Value) → String → Client → Reply
unfolding parse_envelope
on_message decode text c = (c, emitted (message (parse_envelope decode text)) ∷ [])

abbrev pub delay_of : Client → ℕ
delay_of c = elim c.options.reconnect_delay_ms [ none ↦ 1000 | some d ↦ d ]

pub schedule_reconnect : (Emit → Bool) → ℕ → Client → Reply
schedule_reconnect throws timer c =
    let told = reconnecting (c.reconnect_attempt + 1) (delay_of c) in
    let counted = record c { reconnect_attempt = c.reconnect_attempt + 1 } in
    if throws told then (counted, emitted told ∷ []) else (
      record counted { reconnect_timer = some timer; timers = c.timers ++ timer ∷ [] },
      emitted told ∷ [],
    )

-- options.autoReconnect !== false
abbrev pub reconnects : Client → Bool
reconnects c = elim c.options.auto_reconnect [ none ↦ true | some b ↦ b ]

-- The promise of a socket that closes, and what its rejection does. The rejection is delivered
-- behind the handler, so its effect comes last.
abbrev closing : ℕ → Client → Client × List Effect
closing h c = elim (c.promises h) [
  | waiting who ↦ (
    record c { promises = settle h rejected c.promises },
    rejection who "WebSocket closed before opening.",
  )
  | _ ↦ (c, [])
]

pub on_close : (Emit → Bool) → ℕ → ℕ → String → ℕ → Client → Reply
unfolding schedule_reconnect
on_close throws h code reason timer c =
    let (c', late) = closing h (record c { socket = none }) in
    let told = emitted (close code reason) in
    let (d, scheduled) = schedule_reconnect throws timer c' in
    if throws (close code reason)
    then (c, told ∷ [])
    else if not c.manually_closed && reconnects c
    then (d, told ∷ (scheduled ++ late))
    else (c', told ∷ late)

pub disconnect : ℕ → String → Client → Reply
disconnect code reason c = (
  record c {
    manually_closed = true;
    reconnect_timer = none;
    socket = none;
    timers = elim c.reconnect_timer [
      | none ↦ c.timers
      | some t ↦ keep (λ x. not (t == x)) c.timers
    ];
  },
  elim c.socket [ none ↦ [] | some h ↦ close_socket h code reason ∷ [] ],
)

-- `open h` says whether the socket's readyState is 1; `none` is the exception that is thrown.
pub send : (ℕ → Bool) → Value → Client → Option (ℕ × Value)
send opened v c = elim c.socket [ none ↦ none | some h ↦ if opened h then some (h, v) else none ]
