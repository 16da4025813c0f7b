-- ===== src/Desktop/Service.antt =====
-- apps/desktop/src/services/WebSocketService.ts: the connection with its reconnect timer and its
-- listeners. A socket is the handle that `new WebSocket` gave, a callback the identity of a
-- function. An operation returns the new service and its effects, in order. What the browser does
-- is an argument: `dial` is `new URL` with `new WebSocket` (`none` where one throws), `ready` reads
-- a socket's `readyState`. Callbacks that throw are caught by the source, so each one is called.
pub mod Backoff
pub mod Listeners
pub mod Lifecycle
mod Tests
use agentunited.Prelude.{
  ℕ, ◌+◌, ◌*◌, ◌^◌, min, String, Bool, true, false, not, ◌&&◌, ◌||◌, Option, none, some, List, [],
  ◌∷◌, ◌++◌, map, ltb, ◌==◌, str_eq, if◌then◌else◌, is_some,
}
use agentunited.Prelude.Dict.{Dict, get_or, insert, lookup}
use agentunited.Prelude.Js.{
  Value, str, obj, arr, undefined, Items, empty_items, item, field, no_fields,
}

pub data ReadyState : Type 0 where
  connecting open_state closing closed : ReadyState

-- `reconnect_interval` and `max_reconnect_attempts` are 1000 and 10 where the caller gives none.
pub record Config : Type 0 where
  pub url : String
  pub token : Option String
  pub reconnect_interval : ℕ
  pub max_reconnect_attempts : ℕ

-- `reconnect_timer` holds the delay of the pending timer.
pub record Service : Type 0 where
  pub ws : Option ℕ
  pub config : Config
  pub reconnect_attempts : ℕ
  pub reconnect_timer : Option ℕ
  pub is_connecting : Bool
  pub listeners : Dict (List ℕ)
  pub connection_listeners : List ℕ

-- `transmit` carries the object that JSON.stringify is applied to.
pub data Effect : Type 0 where
  opened : ℕ → Effect
  close_socket : ℕ → Effect
  transmit : ℕ → Value → Effect
  notify : Bool → ℕ → Effect
  deliver : Value → ℕ → Effect
  set_timer : ℕ → Effect
  clear_timer : Effect

abbrev pub Reply : Type 0
Reply = Service × List Effect

pub make : String → Option String → Option ℕ → Option ℕ → Service
make url token interval most = record {
  ws = none;
  config = record {
    url = url;
    token = token;
    reconnect_interval = elim interval [ none ↦ 1000 | some n ↦ n ];
    max_reconnect_attempts = elim most [ none ↦ 10 | some n ↦ n ];
  };
  reconnect_attempts = 0;
  reconnect_timer = none;
  is_connecting = false;
  listeners = [];
  connection_listeners = [];
}

abbrev pub is_open : ReadyState → Bool
is_open open_state = true
is_open _ = false

-- this.ws?.readyState === WebSocket.OPEN
pub is_connected : (ℕ → ReadyState) → Service → Bool
is_connected ready s = elim s.ws [ none ↦ false | some h ↦ is_open (ready h) ]

pub delay_of : Config → ℕ → ℕ
delay_of c attempts = min (c.reconnect_interval * 2 ^ attempts) 30000

pub schedule_reconnect : Service → Reply
schedule_reconnect s = if is_some s.reconnect_timer then (s, []) else (
  record s { reconnect_timer = some (delay_of s.config s.reconnect_attempts) },
  set_timer (delay_of s.config s.reconnect_attempts) ∷ [],
)

-- `if (this.config.token)`: the empty token is not sent.
abbrev pub sent_token : Option String → Option String
sent_token none = none
sent_token (some t) = if str_eq t "" then none else some t

module _ (dial : String → Option String → Option ℕ) where
  -- The body of `connect` behind its guard.
  pub dial_now : Service → Reply
  unfolding schedule_reconnect
  dial_now s = elim (dial s.config.url (sent_token s.config.token)) [
    | none ↦ schedule_reconnect (record s { is_connecting = false })
    | some h ↦ (record s { is_connecting = true; ws = some h }, opened h ∷ [])
  ]

  pub connect : (ℕ → ReadyState) → Service → Reply
  unfolding is_connected dial_now
  connect ready s = if is_connected ready s || s.is_connecting then (s, []) else dial_now s

  -- The timer's callback in `scheduleReconnect`.
  pub timer_fired : (ℕ → ReadyState) → Service → Reply
  unfolding connect
  timer_fired ready s =
      connect ready
        (record s { reconnect_timer = none; reconnect_attempts = s.reconnect_attempts + 1 })

notify_connection_listeners : Bool → Service → List Effect
notify_connection_listeners connected s = map (notify connected) s.connection_listeners

pub on_open : Service → Reply
unfolding notify_connection_listeners
on_open s =
    (record s { is_connecting = false; reconnect_attempts = 0 }, notify_connection_listeners true s)

-- `message` is what JSON.parse gave: a type and its data, or `none` where it throws or gives no
-- object with a type, which the handler logs.
pub on_message : Option (String × Value) → Service → Reply
on_message none s = (s, [])
on_message (some (type, payload)) s = (s, map (deliver payload) (get_or type [] s.listeners))

pub on_error : Service → Reply
on_error s = (record s { is_connecting = false }, [])

pub on_close : Bool → Service → Reply
unfolding notify_connection_listeners schedule_reconnect
on_close was_clean s =
    let s' = record s { is_connecting = false } in
    let told = notify_connection_listeners false s in
    if not was_clean && ltb s.reconnect_attempts s.config.max_reconnect_attempts
    then ((schedule_reconnect s').0, told ++ (schedule_reconnect s').1)
    else (s', told)

pub disconnect : Service → Reply
disconnect s = (
  record s { reconnect_timer = none; ws = none },
  (if is_some s.reconnect_timer then clear_timer ∷ [] else [])
      ++ elim s.ws [ none ↦ [] | some h ↦ close_socket h ∷ [] ],
)

pub send : (ℕ → ReadyState) → Value → Service → Reply
unfolding is_connected
send ready message s =
    if is_connected ready s
    then (s, elim s.ws [ none ↦ [] | some h ↦ transmit h message ∷ [] ])
    else (s, [])

abbrev message_of : String → Value → Value
message_of type payload = obj (field "type" (str type) (field "data" payload no_fields))

abbrev pub mention_items : List (String × String) → Items
mention_items [] = empty_items
mention_items ((id, type) ∷ ms) =
    item (obj (field "id" (str id) (field "type" (str type) no_fields))) (mention_items ms)

-- A mention is given by its id and type: the name is not sent.
pub send_message :
    (ℕ → ReadyState) → String → String → Option (List (String × String)) → Service → Reply
unfolding send
send_message ready channel content mentions s =
    send ready
      (message_of "message.send" (
        obj (
          field "channelId" (str channel) (
            field "content" (str content) (
              field "mentions"
                (elim mentions [ none ↦ undefined | some ms ↦ arr (mention_items ms) ])
                no_fields)))))
      s

pub start_typing : (ℕ → ReadyState) → String → Service → Reply
unfolding send
start_typing ready channel s =
    send ready (message_of "typing.start" (obj (field "channelId" (str channel) no_fields))) s

pub stop_typing : (ℕ → ReadyState) → String → Service → Reply
unfolding send
stop_typing ready channel s =
    send ready (message_of "typing.stop" (obj (field "channelId" (str channel) no_fields))) s

pub on : String → ℕ → Service → Service
on type callback s = record s {
  listeners = insert type (get_or type [] s.listeners ++ callback ∷ []) s.listeners;
}

-- indexOf and splice: the first entry that is the callback goes.
unfoldable pub remove_first : ℕ → List ℕ → List ℕ
remove_first c [] = []
remove_first c (x ∷ xs) = if x == c then xs else x ∷ remove_first c xs

-- The function that `on` returns.
pub unsubscribe : String → ℕ → Service → Service
unsubscribe type callback s = elim (lookup type s.listeners) [
  | none ↦ s
  | some callbacks ↦ record s {
    listeners = insert type (remove_first callback callbacks) s.listeners;
  }
]

pub on_connection_change : ℕ → Service → Service
on_connection_change callback s = record s {
  connection_listeners = s.connection_listeners ++ callback ∷ [];
}

pub off_connection_change : ℕ → Service → Service
off_connection_change callback s = record s {
  connection_listeners = remove_first callback s.connection_listeners;
}
