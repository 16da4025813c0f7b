-- ===== src/Web/Socket.antt =====
-- apps/web/src/services/webSocketService.ts: one socket with a reconnect timer whose delay doubles
-- in the state. `dial` is `new WebSocket` (`none` where it throws), `encode` is encodeURIComponent,
-- `now` the time as text. What a message holds are JavaScript values as JSON.parse gave them.
pub mod Retries
pub mod Incoming
mod Tests
use Prim.Native.String
use agentunited.Prelude.{
  ℕ, ◌+◌, ◌*◌, min, String, Bool, true, false, not, ◌&&◌, Option, none, some, List, [], ◌∷◌, ltb,
  str_eq, if◌then◌else◌, is_some,
}
use agentunited.Prelude.Js.{
  Value, undefined, str, bool, obj, Fields, no_fields, field, get, truthy, ◌or_else◌, is_text,
}

pub record Socket : Type 0 where
  pub ws : Option ℕ
  pub url : String
  pub on_message : Bool
  pub reconnect_attempts : ℕ
  pub max_reconnect_attempts : ℕ
  pub reconnect_delay : ℕ
  pub reconnect_timer : Option ℕ

pub data AuthorType : Type 0 where
  agent human : AuthorType

pub record Message : Type 0 where
  pub id : Value
  pub channel_id : Value
  pub author : Value
  pub author_id : Value
  pub author_type : AuthorType
  pub text : Value
  pub timestamp : Value

-- What the callback is called with, and what is done to sockets and timers. A message that arrives
-- this way is never marked as the user's own.
pub data Effect : Type 0 where
  connected : Effect
  error : Value → Effect
  message : Message → Effect
  dialled : String → ℕ → Effect
  transmit : ℕ → Value → Effect
  close_socket : ℕ → Effect
  set_timer : ℕ → Effect

abbrev pub Reply : Type 0
Reply = Socket × List Effect

pub make : String → Socket
make url = record {
  ws = none;
  url = url;
  on_message = false;
  reconnect_attempts = 0;
  max_reconnect_attempts = 5;
  reconnect_delay = 1000;
  reconnect_timer = none;
}

-- this.onMessage?.(…)
abbrev tell : Effect → Socket → List Effect
tell e s = if s.on_message then e ∷ [] else []

abbrev note : String → Value
note text = obj (field "message" (str text) no_fields)

-- `token ? url?token=… : url`
abbrev pub with_token : (String → String) → Option String → String → String
with_token encode none url = url
with_token encode (some t) url =
    if str_eq t "" then url else String.◌++◌ url (String.◌++◌ "?token=" (encode t))

module _ (dial : String → Option ℕ) (encode : String → String) (token : Option String) where
  pub connect : Socket → Reply
  connect s = elim (dial (with_token encode token s.url)) [
    | none ↦
        (record s { on_message = true }, error (note "Failed to create WebSocket connection") ∷ [])
    | some h ↦ (
      record s { on_message = true; ws = some h },
      dialled (with_token encode token s.url) h ∷ [],
    )
  ]

  -- The timer's callback: the delay doubles behind the call of `connect`.
  pub timer_fired : Socket → Reply
  unfolding connect
  timer_fired s =
      let s' = record s { reconnect_timer = none } in
      let (t, out) = if s.on_message then connect s' else (s', []) in
      (record t { reconnect_delay = min (t.reconnect_delay * 2) 30000 }, out)

pub on_open : Socket → Reply
on_open s = (record s { reconnect_attempts = 0; reconnect_delay = 1000 }, tell connected s)

pub on_error : Socket → Reply
on_error s = (s, tell (error (note "WebSocket connection error")) s)

pub schedule_reconnect : Socket → Reply
schedule_reconnect s = if is_some s.reconnect_timer then (s, []) else (
  record s {
    reconnect_attempts = s.reconnect_attempts + 1;
    reconnect_timer = some s.reconnect_delay;
  },
  set_timer s.reconnect_delay ∷ [],
)

pub on_close : Bool → Socket → Reply
unfolding schedule_reconnect
on_close was_clean s =
    let s' = record s { ws = none } in
    if not was_clean && ltb s.reconnect_attempts s.max_reconnect_attempts
    then schedule_reconnect s'
    else (s', [])

pub disconnect : Socket → Reply
disconnect s = (
  record s { reconnect_timer = none; ws = none },
  elim s.ws [ none ↦ [] | some h ↦ close_socket h ∷ [] ],
)

-- `opened h` says whether the socket's readyState is OPEN.
pub is_connected : (ℕ → Bool) → Socket → Bool
is_connected opened s = elim s.ws [ none ↦ false | some h ↦ opened h ]

pub send : (ℕ → Bool) → String → String → Socket → List Effect
send opened text channel s = elim s.ws [
  | none ↦ []
  | some h ↦
      if opened h
      then transmit h (
          obj (
            field "type" (str "send_message") (
              field "data"
                (obj (field "channelId" (str channel) (field "text" (str text) no_fields)))
                no_fields)))
        ∷ []
      else []
]

abbrev pub author_type_of : Value → AuthorType
author_type_of v = if is_text "agent" v then agent else human

-- The message that the server's fields make, whichever of their names it uses.
pub message_of : String → Value → Message
message_of now m = record {
  id = get "message_id" m or_else get "id" m or_else str "";
  channel_id = get "channel_id" m or_else get "channelId" m or_else str "";
  author = get "author_email" m or_else get "name" (get "author" m) or_else str "Unknown";
  author_id =
      get "author_id" m
      or_else get "user_id" m
      or_else get "id" (get "author" m)
      or_else str "unknown";
  author_type = author_type_of (get "author_type" m);
  text = get "text" m or_else get "content" m;
  timestamp = get "created_at" m or_else get "timestamp" m or_else str now;
}

-- `handleServerMessage`; a type that is no known text is logged.
pub handle_server_message : String → Value → Socket → List Effect
unfolding message_of
handle_server_message now v s =
    let m = get "message" v or_else v in
    if is_text "message" (get "type" v)
    then (if truthy (get "text" m or_else get "content" m)
        then tell (message (message_of now m)) s
        else [])
    else if is_text "error" (get "type" v)
    then tell (error (get "data" v or_else note "Server error")) s
    else []

-- `ws.onmessage`: text that does not parse, and null, which has no type, are logged.
pub on_message_event : (String → Option Value) → String → String → Socket → List Effect
unfolding handle_server_message
on_message_event decode now text s = elim (decode text) [
  | none ↦ []
  | some v ↦ handle_server_message now v s
]
