-- ===== src/Web/Live.antt =====
-- apps/web/src/hooks/useWebSocket.ts, the hook behind the chat page, with getDisplayName of
-- apps/web/src/lib/displayName.ts. The state holds what the hook keeps in state and refs, and the
-- browser's localStorage. React's setters apply at once. Parameters stand for the platform: `decode`
-- is JSON.parse, `text_of` is String(), `is_space` and `upper` are the tests behind trim and
-- toUpperCase; a socket is the handle that `new WebSocket` gave.
pub mod Names
pub mod Listing
pub mod Retries
mod Tests
use Prim.Native.Char.{Char, code}
use Prim.Native.String
use agentunited.Prelude.{
  ℕ, ◌+◌, ◌*◌, ◌^◌, min, String, Bool, true, false, not, ◌&&◌, ◌||◌, Option, none, some, List, [],
  ◌∷◌, ◌++◌, ltb, ◌==◌, str_eq, if◌then◌else◌, any,
}
use agentunited.Prelude.Dict.{Dict, lookup, insert}
use agentunited.Prelude.Js.{
  Value, undefined, null, str, num, bool, obj, arr, Fields, no_fields, field, get, truthy,
  ◌or_else◌, is_text,
}
use agentunited.Prelude.Text.{strip_prefix, includes}
use Names.{get_display_name}

pub data Status : Type 0 where
  connected reconnecting disconnected : Status

pub data AuthorType : Type 0 where
  agent human : AuthorType

pub record Message : Type 0 where
  pub id : Value
  pub channel_id : Value
  pub author : String
  pub author_id : Value
  pub author_type : AuthorType
  pub text : Value
  pub timestamp : Value
  pub is_own_message : Bool

-- `timer` holds the delay of the pending timer.
pub record Live : Type 0 where
  pub is_connected : Bool
  pub connection_status : Status
  pub messages : List Message
  pub error : Option String
  pub ws : Option ℕ
  pub reconnect_attempts : ℕ
  pub timer : Option ℕ
  pub store : Dict String

pub data Effect : Type 0 where
  dialled : ℕ → String → Effect
  transmit : ℕ → Value → Effect
  close_socket : ℕ → Effect

abbrev pub Reply : Type 0
Reply = Live × List Effect

-- The state before the first effect runs.
abbrev signed_in : Option String → Bool
signed_in none = false
signed_in (some t) = not (str_eq t "")

pub make : Dict String → Live
make store = record {
  is_connected = false;
  connection_status = if signed_in (lookup "auth-token" store) then reconnecting else disconnected;
  messages = [];
  error = if signed_in (lookup "auth-token" store) then none else some "Not authenticated";
  ws = none;
  reconnect_attempts = 0;
  timer = none;
  store = store;
}

-- a === b for values of two parses: objects and arrays are never the same.
abbrev pub strict_eq : Value → Value → Bool
strict_eq undefined undefined = true
strict_eq null null = true
strict_eq (str s) (str t) = str_eq s t
strict_eq (num n) (num m) = n == m
strict_eq (bool true) (bool true) = true
strict_eq (bool false) (bool false) = true
strict_eq _ _ = false

abbrev pub has_id : Value → List Message → Bool
has_id id = any (λ m. strict_eq m.id id)

-- The updater that both paths pass to setMessages.
abbrev pub add_new : Message → List Message → List Message
add_new m ms = if has_id m.id ms then ms else ms ++ m ∷ []

-- `fetched` is what fetchMessages gave, `none` where it threw.
pub load_messages : String → Bool → Option (List Message) → Live → Live
load_messages channel cancelled fetched s =
    if str_eq channel ""
    then record s { messages = [] }
    else if cancelled
    then s
    else record s { messages = elim fetched [ none ↦ [] | some ms ↦ ms ] }

-- replace(/^https?:\/\//, '')
pub host_of : String → String
unfolding strip_prefix
host_of base = elim (strip_prefix "https://" base) [
  | some rest ↦ rest
  | none ↦ elim (strip_prefix "http://" base) [ some rest ↦ rest | none ↦ base ]
]

pub ws_url : String → String → String
unfolding host_of
ws_url base token =
    let protocol : String = elim (strip_prefix "https" base) [ none ↦ "ws" | some _ ↦ "wss" ] in
    String.◌++◌ protocol
      (String.◌++◌ "://" (String.◌++◌ (host_of base) (String.◌++◌ "/ws?token=" token)))

-- The inner function `connect`, with the socket that the constructor gives.
pub connect : String → ℕ → Live → Reply
connect url h s = (record s { connection_status = reconnecting; ws = some h }, dialled h url ∷ [])

-- The effect that opens the connection for a channel.
pub start : String → String → ℕ → Live → Reply
unfolding host_of ws_url connect includes
start base channel h s = if str_eq channel "" then (s, []) else elim (lookup "auth-token" s.store) [
  | none ↦ (s, [])
  | some token ↦
      if str_eq token ""
      then (s, [])
      else if includes ".tunnel." (host_of base)
      then (
        record s {
          is_connected = false;
          connection_status = disconnected;
          error = some "Realtime unavailable in relay mode; using HTTP fallback.";
        },
        [],
      )
      else connect (ws_url base token) h s
]

pub on_open : String → ℕ → Live → Reply
on_open channel h s = (
  record s {
    is_connected = true;
    connection_status = connected;
    error = none;
    reconnect_attempts = 0;
  },
  (if str_eq channel ""
      then []
      else transmit h
          (obj (field "type" (str "subscribe") (field "channel_id" (str channel) no_fields)))
        ∷ []),
)

-- localStorage.getItem
abbrev pub item : String → Dict String → Value
item key store = elim (lookup key store) [ none ↦ null | some v ↦ str v ]

abbrev is_message_type : Value → Bool
is_message_type t = is_text "message" t || is_text "new_message" t || is_text "message.created" t

-- A message of another channel is left out.
unfoldable pub accept : String → Option Message → Live → Live
accept channel none s = s
accept channel (some m) s =
    if is_text channel m.channel_id then record s { messages = add_new m s.messages } else s

module _ (is_space : Char → Bool) (upper : Char → Char) where
  -- The message that the event's fields make; `none` where the label is no text, which throws.
  pub message_of : String → String → String → Dict String → Value → Option Message
  unfolding get_display_name
  message_of channel fallback_id now store d =
      let inner = get "message" d in
      let author_id = get "author_id" d or_else get "author_id" inner or_else str "" in
      let own = strict_eq author_id (item "user-id" store) in
      let label =
        get "author_email" d
        or_else get "author_display_name" d
        or_else get "author_name" d
        or_else get "author_email" inner
        or_else get "author_display_name" inner
        or_else get "author_name" inner
        or_else (if own then item "user-email" store else str "")
        or_else author_id
        or_else str "Unknown" in
      elim label [
        | str name ↦ some (record {
          id = get "id" d or_else get "message_id" d or_else get "id" inner or_else str fallback_id;
          channel_id = get "channel_id" d or_else get "channel_id" inner or_else str channel;
          author = get_display_name is_space upper name;
          author_id = author_id;
          author_type =
              if is_text "agent" (get "author_type" d or_else get "author_type" inner)
              then agent
              else human;
          text = get "text" d or_else get "text" inner or_else str "";
          timestamp = get "created_at" d or_else get "created_at" inner or_else str now;
          is_own_message = own;
        })
        | _ ↦ none
      ]

  -- `ws.onmessage` for a text that JSON.parse has read; one that it cannot read is logged.
  pub on_message : (Value → String) → String → String → String → Value → Live → Live
  unfolding message_of
  on_message text_of channel fallback_id now v s =
      if is_text "connected" (get "type" v)
      then (if truthy (get "user_id" v)
          then record s { store = insert "user-id" (text_of (get "user_id" v)) s.store }
          else s)
      else if is_message_type (get "type" v)
      then accept channel (message_of channel fallback_id now s.store (get "data" v or_else v)) s
      else s

pub on_error : Live → Live
on_error s = record s {
  error = some "WebSocket error";
  is_connected = false;
  connection_status = disconnected;
}

pub on_close : Live → Live
on_close s =
    let s' = record s { is_connected = false } in
    if ltb s.reconnect_attempts 10
    then record s' {
      reconnect_attempts = s.reconnect_attempts + 1;
      connection_status = reconnecting;
      timer = some (min 30000 (1000 * 2 ^ s.reconnect_attempts));
    }
    else record s' {
      connection_status = disconnected;
      error = some "Connection lost. Please refresh.";
    }

pub timer_fired : String → ℕ → Live → Reply
unfolding connect
timer_fired url h s = connect url h (record s { timer = none })

-- What the effect returns: it runs when the channel changes or the page goes away.
pub cleanup : Live → Reply
cleanup s =
    (record s { timer = none; ws = none }, elim s.ws [ none ↦ [] | some h ↦ close_socket h ∷ [] ])

-- `sent` is what chatApi.sendMessage gave, `none` where it threw; the Boolean is the result.
pub send_message : (ℕ → Bool) → String → String → Option Message → Live → Live × Bool × List Effect
send_message opened channel text sent s =
    let fallback : Live × Bool × List Effect = elim sent [
      | none ↦ (s, false, [])
      | some m ↦ (record s { messages = add_new m s.messages }, true, [])
    ] in
    elim s.ws [
      | none ↦ fallback
      | some h ↦
          if opened h
          then (
            s,
            true,
            transmit h (
                  obj (
                    field "type" (str "send_message")
                      (field "channel_id" (str channel) (field "text" (str text) no_fields))))
                ∷ [],
          )
          else fallback
    ]
